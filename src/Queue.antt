-- ===== src/Queue.antt =====
-- server/net/ResultQueue.cpp with its eventfd, and the main thread that drains it. An event is a part
-- of a call of push or drain that other threads see as a whole: what the mutex guards, or a system
-- call. The main thread drains for two reasons: epoll reports the eventfd, which server/app/main.cpp
-- registers for EPOLLIN, level-triggered, so when the counter is not 0 (`notified`), and after the
-- event loop it drains in each round while it waits for the workers, whatever the counter is.
pub mod Order
pub mod Wakeup
use cvcn.Common.{
  ℕ, suc, ◌+◌, ◌-◌, ◌^◌, Bool, true, false, not, ◌&&◌, List, [], ◌∷◌, ◌++◌, Option, none, some, ltb,
  ◌==◌, ◌≡◌, if◌then◌else◌,
}
use cvcn.Server.{SessionCommand}

-- Where the main thread is: waiting in epoll, or in the loop of `drain` with what it took.
pub data Reader : Type 0 where
  waiting : Reader
  reading : List SessionCommand → Reader

-- `queue_`, the counter of the eventfd, the calls of push that have not written yet, the main thread,
-- and the commands that drain has returned, in order.
pub record ResultQueue : Type 0 where
  pub queue : List SessionCommand
  pub counter : ℕ
  pub writers : ℕ
  pub reader : Reader
  pub drained : List SessionCommand

-- `appended` and `written` are the two parts of push, `swapped`, `read` and `returned` those of
-- drain.
pub data QueueEvent : Type 0 where
  appended : SessionCommand → QueueEvent
  written swapped read returned : QueueEvent

unfoldable pub new_queue : ResultQueue
new_queue = record { queue = []; counter = 0; writers = 0; reader = waiting; drained = [] }

-- `queue_.push_back` under the mutex.
unfoldable pub append_command : SessionCommand → ResultQueue → Option ResultQueue
append_command cmd q = some (record q { queue = q.queue ++ cmd ∷ []; writers = q.writers + 1 })

-- `write(eventFd_, &one, sizeof(one))`: the counter goes up, or EAGAIN if it would overflow.
unfoldable pub write_one : ResultQueue → Option ResultQueue
write_one q =
    if q.writers == 0
    then none
    else some (record q {
      writers = q.writers - 1;
      counter = if ltb q.counter (2 ^ 64 - 2) then q.counter + 1 else q.counter;
    })

-- `out.swap(queue_)` under the mutex.
unfoldable pub swap_queue : ResultQueue → Option ResultQueue
swap_queue q = elim q.reader [
  | reading out ↦ none
  | waiting ↦ some (record q { queue = []; reader = reading q.queue })
]

-- One `read(eventFd_, &value, sizeof(value))` that returns the counter and resets it.
unfoldable pub read_counter : ResultQueue → Option ResultQueue
read_counter q = elim q.reader [
  | waiting ↦ none
  | reading out ↦ if q.counter == 0 then none else some (record q { counter = 0 })
]

-- The read that fails with EAGAIN ends the loop, and `drain` returns.
unfoldable pub return_out : ResultQueue → Option ResultQueue
return_out q = elim q.reader [
  | waiting ↦ none
  | reading out ↦
      if q.counter == 0
      then some (record q { reader = waiting; drained = q.drained ++ out })
      else none
]

unfoldable pub queue_step : QueueEvent → ResultQueue → Option ResultQueue
queue_step (appended cmd) q = append_command cmd q
queue_step written q = write_one q
queue_step swapped q = swap_queue q
queue_step read q = read_counter q
queue_step returned q = return_out q

-- epoll_wait of the event loop reports the eventfd, and the loop drains.
unfoldable pub notified : ResultQueue → Option ResultQueue
notified q = if q.counter == 0 then none else swap_queue q

pub data QueueRuns : ResultQueue → List QueueEvent → ResultQueue → Type 0 where
  stays : {q : ResultQueue} → QueueRuns q [] q
  goes :
      {q q' q'' : ResultQueue} {e : QueueEvent} {es : List QueueEvent}
      → queue_step e q ≡ some q'
      → QueueRuns q' es q''
      → QueueRuns q (e ∷ es) q''
