-- ===== src/Pool.antt =====
-- server/net/ThreadPool.cpp. An event is a part of a thread that holds the mutex, so any order of
-- events is an order in which threads get it; a task is a number, and runs between `taken` and
-- `finished`. A task that throws is caught by the loop and ends like any other.
pub mod Forms
pub mod Order
pub mod Shutdown
use cvcn.Common.{
  ℕ, zero, suc, ◌+◌, ◌-◌, Bool, true, false, not, ◌&&◌, ◌||◌, List, [], ◌∷◌, ◌++◌, Option, none,
  some, length, ltb, ◌==◌, ◌≡◌, if◌then◌else◌,
}

-- The members of the pool; `alive` counts the threads in `workers_` that have not returned, and
-- `running` holds the tasks that they run.
pub record Pool : Type 0 where
  pub tasks : List ℕ
  pub in_flight : ℕ
  pub stopping : Bool
  pub alive : ℕ
  pub running : List ℕ

pub data PoolEvent : Type 0 where
  submitted : ℕ → PoolEvent
  taken left stopped : PoolEvent
  finished : ℕ → PoolEvent

abbrev pub is_empty_list : List ℕ → Bool
is_empty_list [] = true
is_empty_list (t ∷ ts) = false

-- The constructor: one worker at least.
unfoldable pub new_pool : ℕ → Pool
new_pool num_threads = record {
  tasks = [];
  in_flight = 0;
  stopping = false;
  alive = if num_threads == 0 then 1 else num_threads;
  running = [];
}

unfoldable pub submit_task : ℕ → Pool → Pool
submit_task task p = if p.stopping then p else record p { tasks = p.tasks ++ task ∷ [] }

unfoldable pub stop : Pool → Pool
stop p = if p.stopping then p else record p { stopping = true }

-- A worker that runs no task.
abbrev pub is_idle : Pool → Bool
is_idle p = ltb (length p.running) p.alive

-- The first part of `workerLoop` for a worker that waits: it takes a task or returns. It cannot go
-- on where the condition of `wait` is false.
unfoldable pub take_task : Pool → Option Pool
take_task p = if not (is_idle p) then none else elim p.tasks [
  | [] ↦ none
  | task ∷ rest ↦
      some
        (record p { tasks = rest; in_flight = p.in_flight + 1; running = p.running ++ task ∷ [] })
]

unfoldable pub leave : Pool → Option Pool
leave p =
    if is_idle p && (p.stopping && is_empty_list p.tasks)
    then some (record p { alive = p.alive - 1 })
    else none

-- The task at the place, and the tasks without it.
unfoldable pub remove_at : ℕ → List ℕ → Option (ℕ × List ℕ)
remove_at i [] = none
remove_at zero (t ∷ ts) = some (t, ts)
remove_at (suc i) (t ∷ ts) = elim (remove_at i ts) [
  | none ↦ none
  | some (task, rest) ↦ some (task, t ∷ rest)
]

-- The last part of `workerLoop`, for the worker that runs the task at the place.
unfoldable pub finish_task : ℕ → Pool → Option Pool
finish_task i p = elim (remove_at i p.running) [
  | none ↦ none
  | some (task, rest) ↦ some (record p { in_flight = p.in_flight - 1; running = rest })
]

unfoldable pub pool_step : PoolEvent → Pool → Option Pool
pool_step (submitted task) p = some (submit_task task p)
pool_step taken p = take_task p
pool_step left p = leave p
pool_step stopped p = some (stop p)
pool_step (finished i) p = finish_task i p

-- `hasPendingTasks`; `waitIdle` returns when this is false.
unfoldable pub has_pending_tasks : Pool → Bool
has_pending_tasks p = not (is_empty_list p.tasks) || ltb 0 p.in_flight

-- Runs of the pool from the first state to the last.
pub data Runs : Pool → List PoolEvent → Pool → Type 0 where
  stays : {p : Pool} → Runs p [] p
  goes :
      {p p' p'' : Pool} {e : PoolEvent} {es : List PoolEvent}
      → pool_step e p ≡ some p'
      → Runs p' es p''
      → Runs p (e ∷ es) p''
