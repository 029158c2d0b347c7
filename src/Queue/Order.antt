-- ===== src/Queue/Order.antt =====
-- Every command that is pushed is drained once, in the order of the pushes.
use cvcn.Common.{
  ◌≡◌, refl, sym, ap, subst, ◌∙◌, Bool, true, false, List, [], ◌∷◌, ◌++◌, Option, none, some,
  append_assoc, append-nil, ◌==◌, if◌then◌else◌, if_rule,
}
use cvcn.Server.{SessionCommand}
use cvcn.Queue.{
  Reader, waiting, reading, ResultQueue, QueueEvent, appended, written, swapped, read, returned,
  append_command, write_one, swap_queue, read_counter, return_out, queue_step, QueueRuns, stays,
  goes,
}

-- The commands that the main thread holds, and all that were pushed, oldest first.
abbrev pub held : Reader → List SessionCommand
held waiting = []
held (reading out) = out

abbrev pub contents : ResultQueue → List SessionCommand
contents q = q.drained ++ (held q.reader ++ q.queue)

abbrev pub pushed_by : QueueEvent → List SessionCommand
pushed_by (appended cmd) = cmd ∷ []
pushed_by e = []

abbrev pub pushed : List QueueEvent → List SessionCommand
pushed [] = []
pushed (e ∷ es) = pushed_by e ++ pushed es

-- What holds of the result, if there is one.
abbrev pub Leads : (ResultQueue → Type 0) → Option ResultQueue → Type 0
Leads P none = Unit {0}
Leads P (some q) = P q

pub Leads-some :
    (P : ResultQueue → Type 0) (o : Option ResultQueue) (q : ResultQueue)
    → Leads P o
    → o ≡ some q
    → P q
Leads-some P o q h e = subst (Leads P) e h

-- The contents after an event are those before and what it pushed.
abbrev IsNext : QueueEvent → ResultQueue → ResultQueue → Type 0
IsNext e q q' = contents q' ≡ contents q ++ pushed_by e

append_command-IsNext :
    (cmd : SessionCommand) (q : ResultQueue)
    → Leads (IsNext (appended cmd) q) (append_command cmd q)
unfolding append_command
append_command-IsNext cmd q =
    ap (λ t. q.drained ++ t) (sym (append_assoc (held q.reader) q.queue (cmd ∷ [])))
    ∙ sym (append_assoc q.drained (held q.reader ++ q.queue) (cmd ∷ []))

write_one-IsNext : (q : ResultQueue) → Leads (IsNext written q) (write_one q)
unfolding write_one
write_one-IsNext q =
    if_rule (Leads (IsNext written q)) (q.writers == 0) _ _ (λ e. tt)
      (λ e. sym (append-nil (contents q)))

-- The parts of drain, for the main thread where it is and for the test of the counter.
same_contents :
    (q : ResultQueue) (r : Reader)
    → q.reader ≡ r
    → q.drained ++ (held r ++ q.queue) ≡ contents q ++ []
same_contents q r e =
    ap (λ (s : Reader). q.drained ++ (held s ++ q.queue)) (sym e) ∙ sym (append-nil (contents q))

swap_of :
    (q : ResultQueue) (r : Reader)
    → q.reader ≡ r
    → Leads (IsNext swapped q) (elim r [
      | reading out ↦ none
      | waiting ↦ some (record q { queue = []; reader = reading q.queue })
    ])
swap_of q (reading out) e = tt
swap_of q waiting e = ap (λ t. q.drained ++ t) (append-nil q.queue) ∙ same_contents q waiting e

read_of :
    (q : ResultQueue) (r : Reader) (b : Bool)
    → q.reader ≡ r
    → Leads (IsNext read q) (elim r [
      | waiting ↦ none
      | reading out ↦ if b then none else some (record q { counter = 0 })
    ])
read_of q waiting b e = tt
read_of q (reading out) true e = tt
read_of q (reading out) false e = sym (append-nil (contents q))

return_of :
    (q : ResultQueue) (r : Reader) (b : Bool)
    → q.reader ≡ r
    → Leads (IsNext returned q) (elim r [
      | waiting ↦ none
      | reading out ↦
          if b then some (record q { reader = waiting; drained = q.drained ++ out }) else none
    ])
return_of q waiting b e = tt
return_of q (reading out) false e = tt
return_of q (reading out) true e =
    append_assoc q.drained out q.queue ∙ same_contents q (reading out) e

queue_step-IsNext : (e : QueueEvent) (q : ResultQueue) → Leads (IsNext e q) (queue_step e q)
unfolding queue_step swap_queue read_counter return_out
queue_step-IsNext (appended cmd) q = append_command-IsNext cmd q
queue_step-IsNext written q = write_one-IsNext q
queue_step-IsNext swapped q = swap_of q q.reader refl
queue_step-IsNext read q = read_of q q.reader (q.counter == 0) refl
queue_step-IsNext returned q = return_of q q.reader (q.counter == 0) refl

-- However the calls of push and drain interleave, and whether or not the counter is 0 when a drain
-- starts, what drain has returned, what it holds and what
-- waits in the queue are together the commands that were pushed: each once, in the order of the
-- pushes.
pub QueueRuns-order :
    (q q' : ResultQueue) (es : List QueueEvent)
    → QueueRuns q es q'
    → contents q' ≡ contents q ++ pushed es
QueueRuns-order q q' es stays = sym (append-nil (contents q))
QueueRuns-order _ _ _ (goes {q} {q'} {q''} {e} {es} h r) =
    QueueRuns-order q' q'' es r
    ∙ ap (λ t. t ++ pushed es)
        (Leads-some (IsNext e q) (queue_step e q) q' (queue_step-IsNext e q) h)
    ∙ append_assoc (contents q) (pushed_by e) (pushed es)
