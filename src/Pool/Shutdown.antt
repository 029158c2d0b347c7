-- ===== src/Pool/Shutdown.antt =====
-- After stop the pool comes to its end, and stop returns.
use cvcn.Common.{
  ℕ, ◌+◌, ◌*◌, ◌≤◌, ◌<◌, ◌≡◌, ◌≢◌, refl, sym, ap, subst, ◌∙◌, ◌⊎◌, inl, inr, arith, Bool, true,
  false, List, [], ◌∷◌, Option, none, some, length, length-append, ltb→lt, ltb→le, if◌then◌else◌,
  if_rule, Bool-cases,
}
use cvcn.Pool.{
  Pool, new_pool, PoolEvent, submitted, taken, left, stopped, finished, submit_task, stop, is_idle,
  take_task, leave, remove_at, finish_task, pool_step, Runs, stays, goes,
}
use cvcn.Pool.Forms.{take-form, finish-form, leave-form, length-remove_at, some-injective}
use cvcn.Pool.Order.{IsCounted, Runs-IsCounted, new_pool-IsCounted}

-- What the workers have still to do: two events for a task that waits, one for a task that runs,
-- and the return of each worker.
abbrev pub remaining : Pool → ℕ
remaining p = 2 * length p.tasks + length p.running + p.alive

-- An event of a worker.
abbrev pub is_work : PoolEvent → Bool
is_work (submitted task) = false
is_work taken = true
is_work left = true
is_work stopped = false
is_work (finished i) = true

abbrev pub count_work : List PoolEvent → ℕ
count_work [] = 0
count_work (e ∷ es) = (if is_work e then 1 else 0) + count_work es

stays_stopped : (p : Pool) (task : ℕ) → p.stopping ≡ true → submit_task task p ≡ p
unfolding submit_task
stays_stopped p task h = rw (h, submit_task) refl

stop_again : (p : Pool) → p.stopping ≡ true → stop p ≡ p
unfolding stop
stop_again p h = rw (h, stop) refl

step-remaining :
    (e : PoolEvent) (p p' : Pool)
    → p.stopping ≡ true
    → pool_step e p ≡ some p'
    → (p'.stopping ≡ true) × ((if is_work e then 1 else 0) + remaining p' ≤ remaining p)
unfolding pool_step
step-remaining (submitted task) p p' h step =
    let same = sym (stays_stopped p task h) ∙ some-injective _ p' step in
    subst (λ q. (q.stopping ≡ true) × (0 + remaining q ≤ remaining p)) same (h, omega arith)
step-remaining taken p p' h step =
    let (idle, (task, rest, front, after)) = take-form p p' step in
    subst (λ q. (q.stopping ≡ true) × (1 + remaining q ≤ remaining p)) (sym after)
      (h, omega (arith, ap length front, length-append p.running (task ∷ [])))
step-remaining left p p' h step =
    let (idle, stopping, none_left, after) = leave-form p p' step in
    subst (λ q. (q.stopping ≡ true) × (1 + remaining q ≤ remaining p)) (sym after)
      (h, omega (arith, ltb→lt (length p.running) p.alive idle))
step-remaining stopped p p' h step =
    let same = sym (stop_again p h) ∙ some-injective _ p' step in
    subst (λ q. (q.stopping ≡ true) × (0 + remaining q ≤ remaining p)) same (h, omega arith)
step-remaining (finished i) p p' h step =
    let (task, rest, found, after) = finish-form i p p' step in
    let shorter = length-remove_at i task p.running rest found in
    subst (λ q. (q.stopping ≡ true) × (1 + remaining q ≤ remaining p)) (sym after)
      (h, omega (arith, shorter))

Runs-remaining :
    {p p' : Pool} {es : List PoolEvent}
    → Runs p es p'
    → p.stopping ≡ true
    → (p'.stopping ≡ true) × (count_work es + remaining p' ≤ remaining p)
Runs-remaining stays h = (h, omega arith)
Runs-remaining (goes {p} {p'} {p''} {e} {es} s r) h =
    let (h', less) = step-remaining e p p' h s in
    let (h'', rest) = Runs-remaining r h' in (h'', omega (arith, less, rest))

-- Workers return only after stop, and when no task waits.
abbrev pub IsStaffed : Pool → Type 0
IsStaffed p = (0 < p.alive) ⊎ ((p.stopping ≡ true) × (p.tasks ≡ []))

submit-IsStaffed : (task : ℕ) (p : Pool) → IsStaffed p → IsStaffed (submit_task task p)
unfolding submit_task
submit-IsStaffed task p inv =
    if_rule IsStaffed p.stopping _ _ (λ e. inv)
      (λ running. elim inv [ inl some_alive ↦ inl some_alive | inr (h, no_task) ↦ absurd (cc) ])

stop-IsStaffed : (p : Pool) → IsStaffed p → IsStaffed (stop p)
unfolding stop
stop-IsStaffed p inv =
    if_rule IsStaffed p.stopping _ _ (λ e. inv)
      (λ running. elim inv [ inl some_alive ↦ inl some_alive | inr (h, no_task) ↦ absurd (cc) ])

step-IsStaffed :
    (e : PoolEvent) (p p' : Pool) → pool_step e p ≡ some p' → IsStaffed p → IsStaffed p'
unfolding pool_step
step-IsStaffed (submitted task) p p' h inv =
    subst IsStaffed (some-injective _ p' h) (submit-IsStaffed task p inv)
step-IsStaffed taken p p' h inv =
    let (idle, (task, rest, front, after)) = take-form p p' h in
    subst IsStaffed (sym after) (inl (omega (arith, ltb→lt (length p.running) p.alive idle)))
step-IsStaffed left p p' h inv =
    let (idle, stopping, no_task, after) = leave-form p p' h in
    subst IsStaffed (sym after) (inr (stopping, no_task))
step-IsStaffed stopped p p' h inv = subst IsStaffed (some-injective _ p' h) (stop-IsStaffed p inv)
step-IsStaffed (finished i) p p' h inv =
    let (task, rest, found, after) = finish-form i p p' h in subst IsStaffed (sym after) inv

Runs-IsStaffed : {p p' : Pool} {es : List PoolEvent} → Runs p es p' → IsStaffed p → IsStaffed p'
Runs-IsStaffed stays inv = inv
Runs-IsStaffed (goes {p} {p'} {p''} {e} {es} h r) inv =
    Runs-IsStaffed r (step-IsStaffed e p p' h inv)

new_pool-IsStaffed : (n : ℕ) → IsStaffed (new_pool n)
unfolding new_pool
new_pool-IsStaffed n = inl (ground arith)

-- No worker can go on.
abbrev pub IsStuck : Pool → Type 0
IsStuck p = (e : PoolEvent) → is_work e ≡ true → pool_step e p ≡ none

abbrev goes_on : Option Pool → Bool
goes_on none = false
goes_on (some p) = true

finish_task-goes_on :
    (task : ℕ) (rest : List ℕ) (p : Pool)
    → p.running ≡ task ∷ rest
    → goes_on (finish_task 0 p) ≡ true
unfolding finish_task remove_at
finish_task-goes_on task rest p h = rw (h, finish_task) refl

take-goes_on :
    (task : ℕ) (rest : List ℕ) (p : Pool)
    → p.tasks ≡ task ∷ rest
    → is_idle p ≡ true
    → goes_on (take_task p) ≡ true
unfolding take_task
take-goes_on task rest p h idle = rw idle (rw h refl)

leave-goes_on :
    (p : Pool) → p.tasks ≡ [] → p.stopping ≡ true → is_idle p ≡ true → goes_on (leave p) ≡ true
unfolding leave
leave-goes_on p h stopping idle = rw idle (rw stopping (rw h refl))

not_stuck : (o : Option Pool) → goes_on o ≡ true → o ≢ none
not_stuck o h stuck = cc

List-cases : (ts : List ℕ) → (ts ≡ []) ⊎ ((t : ℕ) × (rest : List ℕ) × (ts ≡ t ∷ rest))
List-cases [] = inl refl
List-cases (t ∷ rest) = inr (t, rest, refl)

stuck_lem :
    (p : Pool)
    → p.stopping ≡ true
    → IsStaffed p
    → IsCounted p
    → IsStuck p
    → (p.alive ≡ 0) × (p.tasks ≡ []) × (p.running ≡ [])
unfolding pool_step
stuck_lem p stopping staffed counted stuck = elim (List-cases p.running) [
  | inr (t, rest, h) ↦
      absurd (not_stuck _ (finish_task-goes_on t rest p h) (stuck (finished 0) refl))
  | inl no_run ↦ elim (Bool-cases (is_idle p)) [
    | inl idle ↦ elim (List-cases p.tasks) [
      | inr (t, rest, h) ↦ absurd (not_stuck _ (take-goes_on t rest p h idle) (stuck taken refl))
      | inl no_task ↦ absurd (not_stuck _ (leave-goes_on p no_task stopping idle) (stuck left refl))
    ]
    | inr busy ↦
        let nobody : p.alive ≡ 0 =
          omega (arith, ltb→le (length p.running) p.alive busy, ap length no_run) in
        (
          nobody,
          elim staffed [ inl some_alive ↦ absurd (omega arith) | inr (h, no_task) ↦ no_task ],
          no_run,
        )
  ]
]

-- On a pool that has been stopped, whatever its state and whatever order the threads get the mutex
-- in: the workers make at most as many steps as are left for the tasks that wait or run and for
-- their own returns, and when none of them can go on all of them have returned, no task waits and
-- none runs, so that the joins of stop end.
pub stop-ends :
    (n : ℕ) (p p' : Pool) (before es : List PoolEvent)
    → Runs (new_pool n) before p
    → p.stopping ≡ true
    → Runs p es p'
    → (count_work es + remaining p' ≤ remaining p)
      × (IsStuck p' → (p'.alive ≡ 0) × (p'.tasks ≡ []) × (p'.running ≡ []))
stop-ends n p p' before es reached stopping r =
    let (stopping', bound) = Runs-remaining r stopping in
    (
      bound,
      stuck_lem p' stopping' (Runs-IsStaffed r (Runs-IsStaffed reached (new_pool-IsStaffed n)))
          (Runs-IsCounted r (Runs-IsCounted reached (new_pool-IsCounted n))),
    )
