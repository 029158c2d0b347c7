-- ===== src/Pool/Order.antt =====
-- Tasks are started once, in the order in which they were submitted.
use cvcn.Common.{
  ℕ, ◌≤◌, ◌≡◌, ◌↔◌, refl, sym, ap, subst, ◌∙◌, inl, inr, arith, false, not, ◌||◌, List, [], ◌∷◌,
  ◌++◌, some, length, length-append, append_assoc, append-nil, ltb, ltb→lt, if◌then◌else◌, if_rule,
  Bool-cases,
}
use cvcn.Pool.{
  Pool, PoolEvent, submitted, taken, left, stopped, finished, is_empty_list, new_pool, submit_task,
  stop, pool_step, has_pending_tasks, Runs, stays, goes,
}
use cvcn.Pool.Forms.{take-form, finish-form, leave-form, length-remove_at, some-injective}

-- What an event lets into the queue, and the task that it starts.
abbrev pub accepted : PoolEvent → Pool → List ℕ
accepted (submitted task) p = if p.stopping then [] else task ∷ []
accepted e p = []

abbrev first : List ℕ → List ℕ
first [] = []
first (t ∷ ts) = t ∷ []

abbrev pub started : PoolEvent → Pool → List ℕ
started taken p = first p.tasks
started e p = []

-- The tasks that a run lets in, and those that it starts, each in the order in which it does.
unfoldable pub all_accepted : {p p' : Pool} {es : List PoolEvent} → Runs p es p' → List ℕ
all_accepted stays = []
all_accepted (goes {p} {p'} {p''} {e} {es} h r) = accepted e p ++ all_accepted r

unfoldable pub all_started : {p p' : Pool} {es : List PoolEvent} → Runs p es p' → List ℕ
all_started stays = []
all_started (goes {p} {p'} {p''} {e} {es} h r) = started e p ++ all_started r

submit-tasks :
    (task : ℕ) (p : Pool) → (submit_task task p).tasks ≡ p.tasks ++ accepted (submitted task) p
unfolding submit_task
submit-tasks task p = elim (Bool-cases p.stopping) [
  | inl closed ↦ rw closed (sym (append-nil p.tasks))
  | inr running ↦ rw running refl
]

stop-tasks : (p : Pool) → (stop p).tasks ≡ p.tasks
unfolding stop
stop-tasks p = if_rule (λ (q : Pool). q.tasks ≡ p.tasks) p.stopping _ _ (λ e. refl) (λ e. refl)

step-order :
    (e : PoolEvent) (p p' : Pool)
    → pool_step e p ≡ some p'
    → started e p ++ p'.tasks ≡ p.tasks ++ accepted e p
unfolding pool_step
step-order (submitted task) p p' h =
    subst (λ q. q.tasks ≡ p.tasks ++ accepted (submitted task) p) (some-injective _ p' h)
      (submit-tasks task p)
step-order taken p p' h =
    let (idle, (task, rest, front, after)) = take-form p p' h in
    rw (front, after) (sym (append-nil (task ∷ rest)))
step-order left p p' h =
    let (idle, stopping, none_left, after) = leave-form p p' h in
    rw after (sym (append-nil p.tasks))
step-order stopped p p' h =
    subst (λ q. q.tasks ≡ p.tasks ++ []) (some-injective _ p' h)
      (stop-tasks p ∙ sym (append-nil p.tasks))
step-order (finished i) p p' h =
    let (task, rest, found, after) = finish-form i p p' h in rw after (sym (append-nil p.tasks))

-- In every run of the pool the tasks that workers start, in the order in which they do, and then the
-- tasks that still wait, are the tasks that waited at first and then those that submit let in, in
-- the order of the calls: no task is lost, started twice or overtaken, and submit lets in nothing
-- after stop.
pub Runs-order :
    (p p' : Pool) (es : List PoolEvent) (r : Runs p es p')
    → all_started r ++ p'.tasks ≡ p.tasks ++ all_accepted r
unfolding all_started all_accepted
Runs-order p p' es stays = sym (append-nil p.tasks)
Runs-order _ _ _ (goes {p} {p'} {p''} {e} {es} h r) =
    append_assoc (started e p) (all_started r) p''.tasks
    ∙ ap (λ ts. started e p ++ ts) (Runs-order p' p'' es r)
    ∙ sym (append_assoc (started e p) p'.tasks (all_accepted r))
    ∙ ap (λ ts. ts ++ all_accepted r) (step-order e p p' h)
    ∙ append_assoc p.tasks (accepted e p) (all_accepted r)

-- The counter counts the running tasks, each of which has its own worker.
pub record IsCounted (p : Pool) : Type 0 where
  pub counted : p.in_flight ≡ length p.running
  pub manned : length p.running ≤ p.alive

submit-IsCounted : (task : ℕ) (p : Pool) → IsCounted p → IsCounted (submit_task task p)
unfolding submit_task
submit-IsCounted task p inv =
    if_rule IsCounted p.stopping _ _ (λ e. inv)
      (λ e. record { counted = inv.counted; manned = inv.manned })

stop-IsCounted : (p : Pool) → IsCounted p → IsCounted (stop p)
unfolding stop
stop-IsCounted p inv =
    if_rule IsCounted p.stopping _ _ (λ e. inv)
      (λ e. record { counted = inv.counted; manned = inv.manned })

pub step-IsCounted :
    (e : PoolEvent) (p p' : Pool) → pool_step e p ≡ some p' → IsCounted p → IsCounted p'
unfolding pool_step
step-IsCounted (submitted task) p p' h inv =
    subst IsCounted (some-injective _ p' h) (submit-IsCounted task p inv)
step-IsCounted taken p p' h inv =
    let (idle, (task, rest, front, after)) = take-form p p' h in
    subst IsCounted (sym after) (record {
      counted = omega (arith, inv.counted, length-append p.running (task ∷ []));
      manned =
          omega
            (arith, ltb→lt (length p.running) p.alive idle, length-append p.running (task ∷ []));
    })
step-IsCounted left p p' h inv =
    let (idle, stopping, none_left, after) = leave-form p p' h in
    subst IsCounted (sym after) (record {
      counted = inv.counted;
      manned = omega (arith, ltb→lt (length p.running) p.alive idle);
    })
step-IsCounted stopped p p' h inv = subst IsCounted (some-injective _ p' h) (stop-IsCounted p inv)
step-IsCounted (finished i) p p' h inv =
    let (task, rest, found, after) = finish-form i p p' h in
    let shorter = length-remove_at i task p.running rest found in
    subst IsCounted (sym after) (record {
      counted = omega (arith, inv.counted, shorter);
      manned = omega (arith, inv.manned, shorter);
    })

pub Runs-IsCounted : {p p' : Pool} {es : List PoolEvent} → Runs p es p' → IsCounted p → IsCounted p'
Runs-IsCounted stays inv = inv
Runs-IsCounted (goes {p} {p'} {p''} {e} {es} h r) inv =
    Runs-IsCounted r (step-IsCounted e p p' h inv)

pub new_pool-IsCounted : (n : ℕ) → IsCounted (new_pool n)
unfolding new_pool
new_pool-IsCounted n = record { counted = refl; manned = omega arith }

no_pending_iff :
    (tasks running : List ℕ)
    → (not (is_empty_list tasks) || ltb 0 (length running) ≡ false)
      ↔ ((tasks ≡ []) × (running ≡ []))
no_pending_iff [] [] = (λ h. (refl, refl), λ h. refl)
no_pending_iff [] (r ∷ rs) = (λ h. absurd (ground arith), λ h. absurd (cc))
no_pending_iff (t ∷ ts) running = (λ h. absurd (cc), λ h. absurd (cc))

-- Whatever was submitted, started and finished on a new pool, hasPendingTasks is false, and waitIdle
-- returns, exactly if no task waits and no worker runs one; then the workers have started all tasks
-- that submit let in, in order.
pub has_pending_tasks-exact :
    (n : ℕ) (p : Pool) (es : List PoolEvent) (r : Runs (new_pool n) es p)
    → ((has_pending_tasks p ≡ false) ↔ ((p.tasks ≡ []) × (p.running ≡ [])))
      × (has_pending_tasks p ≡ false → all_started r ≡ all_accepted r)
unfolding has_pending_tasks new_pool
has_pending_tasks-exact n p es r =
    let inv = Runs-IsCounted r (new_pool-IsCounted n) in
    let exactly =
      subst
        (λ k.
          (not (is_empty_list p.tasks) || ltb 0 k ≡ false) ↔ ((p.tasks ≡ []) × (p.running ≡ [])))
        (sym inv.counted) (no_pending_iff p.tasks p.running) in
    (
      exactly,
      λ idle.
          sym (append-nil (all_started r))
          ∙ ap (λ ts. all_started r ++ ts) (sym (exactly.0 idle).0)
          ∙ Runs-order (new_pool n) p es r,
    )
