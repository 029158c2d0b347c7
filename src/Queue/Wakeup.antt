-- ===== src/Queue/Wakeup.antt =====
-- When the main thread learns of a command, and when it does not.
use cvcn.Common.{
  ℕ, ◌+◌, ◌-◌, ◌^◌, ◌<◌, ◌≡◌, ◌≢◌, refl, ◌⊎◌, inl, inr, arith, Bool, true, false, List, [], ◌∷◌,
  ◌++◌, none, some, ltb, ◌==◌, if◌then◌else◌, if_rule, Bool-cases,
}
use cvcn.Server.{SessionCommand}
use cvcn.Queue.{
  Reader, waiting, reading, ResultQueue, QueueEvent, appended, written, swapped, read, returned,
  append_command, write_one, swap_queue, read_counter, return_out, queue_step, QueueRuns, stays,
  goes, notified,
}
use cvcn.Queue.Order.{Leads}

-- Nothing waits in the queue, or the eventfd can be read, or a call of push has still to write.
abbrev pub IsAwake : ResultQueue → Type 0
IsAwake q = (q.queue ≡ []) ⊎ (0 < q.counter) ⊎ (0 < q.writers)

-- The read of drain, while commands wait that all were announced.
abbrev pub Loses : QueueEvent → ResultQueue → Type 0
Loses read q = (q.queue ≢ []) × (q.writers ≡ 0)
Loses e q = ⊥

-- The main thread has swapped the queue for `out` and read the counter once; other commands may
-- wait already.
abbrev pub after_swap :
    List SessionCommand → List SessionCommand → List SessionCommand → ℕ → ResultQueue
after_swap drained out queue counter = record {
  queue = queue;
  counter = counter;
  writers = 0;
  reader = reading out;
  drained = drained;
}

-- The counter after a write.
abbrev raised : ℕ → ℕ
raised n = if ltb n (2 ^ 64 - 2) then n + 1 else n

raised_lem : (n : ℕ) → (raised n == 0) ≡ false
raised_lem n =
    if_rule (λ k. (k == 0) ≡ false) (ltb n (2 ^ 64 - 2)) (n + 1) n (λ e. ground arith)
      (λ e. ground arith)

raised_pos : (n : ℕ) → 0 < raised n
raised_pos n =
    if_rule (λ k. 0 < k) (ltb n (2 ^ 64 - 2)) (n + 1) n (λ e. omega arith) (λ e. ground arith)

read_once :
    (queue out drained : List SessionCommand) (writers counter : ℕ)
    → (counter == 0) ≡ false
    → let q : ResultQueue = record {
      queue = queue;
      counter = counter;
      writers = writers;
      reader = reading out;
      drained = drained;
    } in
      read_counter q ≡ some (record q { counter = 0 })
unfolding read_counter
read_once queue out drained writers counter h = rw h refl

-- A command that is pushed and announced between the swap of drain and its last read waits in the
-- queue when drain has returned, with the eventfd at 0: the event loop is not told to drain until
-- another command is pushed.
pub read-loses_wakeup :
    (cmd : SessionCommand) (drained out queue : List SessionCommand) (counter : ℕ)
    → let q = after_swap drained out queue counter in
      (q' : ResultQueue) × (QueueRuns q (appended cmd ∷ written ∷ read ∷ returned ∷ []) q')
      × (q'.queue ≡ queue ++ cmd ∷ [])
      × (q'.counter ≡ 0)
      × (q'.writers ≡ 0)
      × (q'.reader ≡ waiting)
      × (notified q' ≡ none)
unfolding queue_step append_command write_one read_counter return_out notified
read-loses_wakeup cmd drained out queue counter =
    let q' : ResultQueue = record {
      queue = queue ++ cmd ∷ [];
      counter = 0;
      writers = 0;
      reader = waiting;
      drained = drained ++ out;
    } in
    (
      q',
      goes refl (goes refl (goes (read_once _ _ _ _ _ (raised_lem counter)) (goes refl stays))),
      refl,
      refl,
      refl,
      refl,
      refl,
    )

swap-IsAwake :
    (q : ResultQueue) (r : Reader)
    → Leads IsAwake (elim r [
      | reading out ↦ none
      | waiting ↦ some (record q { queue = []; reader = reading q.queue })
    ])
swap-IsAwake q (reading out) = tt
swap-IsAwake q waiting = inl refl

return-IsAwake :
    (q : ResultQueue) (r : Reader) (b : Bool)
    → IsAwake q
    → Leads IsAwake (elim r [
      | waiting ↦ none
      | reading out ↦
          if b then some (record q { reader = waiting; drained = q.drained ++ out }) else none
    ])
return-IsAwake q waiting b h = tt
return-IsAwake q (reading out) false h = tt
return-IsAwake q (reading out) true h = h

read-Leads :
    (q : ResultQueue) (r : Reader) (b : Bool)
    → (q.queue ≡ []) ⊎ (0 < q.writers)
    → Leads IsAwake (elim r [
      | waiting ↦ none
      | reading out ↦ if b then none else some (record q { counter = 0 })
    ])
read-Leads q waiting b h = tt
read-Leads q (reading out) true h = tt
read-Leads q (reading out) false (inl h) = inl h
read-Leads q (reading out) false (inr h) = inr (inr h)

queue-cases : (cs : List SessionCommand) → (cs ≡ []) ⊎ (cs ≢ [])
queue-cases [] = inl refl
queue-cases (c ∷ cs) = inr (λ e. cc)

-- Every part of push and of drain, but one, keeps the main thread awake: whenever commands wait, the
-- eventfd can be read or a push has still to write to it. The one is a read of drain while commands
-- wait that were all announced.
pub queue_step-IsAwake :
    (e : QueueEvent) (q : ResultQueue) → IsAwake q → Loses e q ⊎ Leads IsAwake (queue_step e q)
unfolding queue_step append_command write_one read_counter return_out swap_queue
queue_step-IsAwake (appended cmd) q h = inr (inr (inr (omega arith)))
queue_step-IsAwake written q h =
    inr (
      if_rule (Leads IsAwake) (q.writers == 0) _ _ (λ e. tt)
        (λ e. inr (inl (raised_pos q.counter))))
queue_step-IsAwake swapped q h = inr (swap-IsAwake q q.reader)
queue_step-IsAwake read q h = elim (queue-cases q.queue) [
  | inl none_waits ↦ inr (read-Leads q q.reader (q.counter == 0) (inl none_waits))
  | inr some_wait ↦ elim (Bool-cases (q.writers == 0)) [
    | inl announced ↦ inl (some_wait, ground arith)
    | inr writing ↦ inr (read-Leads q q.reader (q.counter == 0) (inr (ground arith)))
  ]
]
queue_step-IsAwake returned q h = inr (return-IsAwake q q.reader (q.counter == 0) h)
