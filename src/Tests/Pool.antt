-- ===== src/Tests/Pool.antt =====
-- Runs of the pool of workers and of the result queue.
use cvcn.Common.{◌+◌, ◌≤◌, ◌<◌, arith, ◌≡◌, ◌↔◌, refl, true, false, List, [], ◌∷◌, ◌++◌, none}
use cvcn.Server.{SessionCommand, task_done_command}
use cvcn.Pool
use cvcn.Pool.{
  Pool, PoolEvent, submitted, taken, left, stopped, finished, new_pool, submit_task, stop,
  take_task, leave, remove_at, finish_task, pool_step, has_pending_tasks, Runs,
}
use cvcn.Pool.Order.{all_accepted, all_started, Runs-order, has_pending_tasks-exact}
use cvcn.Pool.Shutdown.{remaining, count_work, IsStuck, stop-ends}
use cvcn.Queue
use cvcn.Queue.{
  waiting, ResultQueue, QueueEvent, appended, written, swapped, read, returned, append_command,
  write_one, swap_queue, read_counter, return_out, queue_step, QueueRuns, new_queue, notified,
}
use cvcn.Queue.Order.{contents, pushed, QueueRuns-order}
use cvcn.Queue.Wakeup.{after_swap, read-loses_wakeup}

-- One worker; the second task waits when the pool is stopped.
abbrev busy_pool : Pool
busy_pool = record { tasks = 8 ∷ []; in_flight = 1; stopping = true; alive = 1; running = 7 ∷ [] }

abbrev ended_pool : Pool
ended_pool = record { tasks = []; in_flight = 0; stopping = true; alive = 0; running = [] }

abbrev until_stop : List PoolEvent
until_stop = submitted 7 ∷ submitted 8 ∷ taken ∷ stopped ∷ submitted 9 ∷ []

abbrev after_stop : List PoolEvent
after_stop = finished 0 ∷ taken ∷ finished 0 ∷ left ∷ []

stopping_run : Runs (new_pool 0) until_stop busy_pool
unfolding new_pool pool_step submit_task stop take_task
stopping_run =
    Pool.goes refl (Pool.goes refl (Pool.goes refl (Pool.goes refl (Pool.goes refl Pool.stays))))

ending_run : Runs busy_pool after_stop ended_pool
unfolding pool_step finish_task take_task leave remove_at
ending_run = Pool.goes refl (Pool.goes refl (Pool.goes refl (Pool.goes refl Pool.stays)))

Runs-order_example :
    all_started stopping_run ++ busy_pool.tasks ≡ (new_pool 0).tasks ++ all_accepted stopping_run
Runs-order_example = Runs-order (new_pool 0) busy_pool until_stop stopping_run

has_pending_tasks-exact_example :
    ((has_pending_tasks busy_pool ≡ false) ↔ ((busy_pool.tasks ≡ []) × (busy_pool.running ≡ [])))
    × (has_pending_tasks busy_pool ≡ false → all_started stopping_run ≡ all_accepted stopping_run)
has_pending_tasks-exact_example = has_pending_tasks-exact 0 busy_pool until_stop stopping_run

stop-ends_example :
    (count_work after_stop + remaining ended_pool ≤ remaining busy_pool)
    × (IsStuck ended_pool
        → (ended_pool.alive ≡ 0) × (ended_pool.tasks ≡ []) × (ended_pool.running ≡ []))
stop-ends_example =
    stop-ends 0 busy_pool ended_pool until_stop after_stop stopping_run refl ending_run

abbrev done_5 : SessionCommand
done_5 = task_done_command 5

abbrev done_6 : SessionCommand
done_6 = task_done_command 6

-- The second command comes between the swap and the read.
abbrev queue_events : List QueueEvent
queue_events =
    appended done_5 ∷ written ∷ swapped ∷ appended done_6 ∷ written ∷ read ∷ returned ∷ []

abbrev asleep : ResultQueue
asleep = record {
  queue = done_6 ∷ [];
  counter = 0;
  writers = 0;
  reader = waiting;
  drained = done_5 ∷ [];
}

queue_run : QueueRuns new_queue queue_events asleep
unfolding new_queue queue_step append_command write_one swap_queue read_counter return_out
queue_run = Queue.goes refl (
    Queue.goes refl (
      Queue.goes refl
        (Queue.goes refl (Queue.goes refl (Queue.goes refl (Queue.goes refl Queue.stays))))))

QueueRuns-order_example : contents asleep ≡ contents new_queue ++ pushed queue_events
QueueRuns-order_example = QueueRuns-order new_queue asleep queue_events queue_run

read-loses_wakeup_example :
    (q' : ResultQueue) × (QueueRuns
      (after_swap [] (done_5 ∷ []) [] 1)
      (appended done_6 ∷ written ∷ read ∷ returned ∷ [])
      q')
    × (q'.queue ≡ done_6 ∷ [])
    × (q'.counter ≡ 0)
    × (q'.writers ≡ 0)
    × (q'.reader ≡ waiting)
    × (notified q' ≡ none)
read-loses_wakeup_example = read-loses_wakeup done_6 [] (done_5 ∷ []) [] 1

one_left : 0 < 1
one_left = omega arith
