-- ===== src/Manager/Pooling.antt =====
-- The jobs of the session manager are the tasks of server/net/ThreadPool.cpp: what a job is in the model
-- of the manager, a list that `submit` appends to and that a worker takes one job off, is what the pool
-- does with its queue and its running tasks.
use cvcn.Common.{
  ℕ, zero, suc, ◌≡◌, refl, sym, ap, subst, ◌∙◌, arith, inl, inr, true, false, not, ◌||◌, List, [],
  ◌∷◌, ◌++◌, some, length, ltb, append_assoc, Option-cases, Bool-cases, some_inj,
}
use cvcn.Manager.{Job, Manager, submit, pick}
use cvcn.Manager.Shutdown.{has_jobs}
use cvcn.Pool.{
  Pool, PoolEvent, submitted, taken, left, stopped, finished, is_empty_list, submit_task, stop,
  remove_at, pool_step, has_pending_tasks, Runs, new_pool,
}
use cvcn.Pool.Forms.{take-form, finish-form, leave-form}
use cvcn.Pool.Order.{Runs-IsCounted, new_pool-IsCounted}

-- The closures that the tasks are.
abbrev pub closures : (ℕ → Job) → List ℕ → List Job
closures job [] = []
closures job (t ∷ ts) = job t ∷ closures job ts

closures-append :
    (job : ℕ → Job) (ts us : List ℕ) → closures job (ts ++ us) ≡ closures job ts ++ closures job us
closures-append job [] us = refl
closures-append job (t ∷ ts) us = ap (λ l. job t ∷ l) (closures-append job ts us)

-- The manager with the tasks of the pool: those that run, oldest first, and then those that wait.
abbrev pub with_pool : {Db : Type 0} → (ℕ → Job) → Pool → Manager Db → Manager Db
with_pool job p m = record m { jobs = closures job (p.running ++ p.tasks); stopping = p.stopping }

-- What an event of the pool is for the manager: a submitted job, the end of a job, or nothing.
abbrev pub IsSeen : {Db : Type 0} → (ℕ → Job) → PoolEvent → Pool → Pool → Manager Db → Type 0
IsSeen job (submitted task) p p' m = with_pool job p' m ≡ submit (job task) (with_pool job p m)
IsSeen job taken p p' m = with_pool job p' m ≡ with_pool job p m
IsSeen job left p p' m = with_pool job p' m ≡ with_pool job p m
IsSeen job stopped p p' m = with_pool job p' m ≡ record (with_pool job p m) { stopping = true }
IsSeen job (finished i) p p' m =
    (task : ℕ) × (pick i (with_pool job p m).jobs ≡ some (job task, (with_pool job p' m).jobs))
    × (p'.stopping ≡ p.stopping)

pick-remove_at :
    (job : ℕ → Job) (i : ℕ) (ts us : List ℕ) (task : ℕ) (rest : List ℕ)
    → remove_at i ts ≡ some (task, rest)
    → pick i (closures job (ts ++ us)) ≡ some (job task, closures job (rest ++ us))
unfolding pick remove_at
pick-remove_at job i [] us task rest e = absurd (cc)
pick-remove_at job zero (t ∷ ts) us task rest e = ground arith
pick-remove_at job (suc i) (t ∷ ts) us task rest e = elim (Option-cases (remove_at i ts)) [
  | inl p ↦ absurd (ground arith)
  | inr ((task', rest'), p) ↦
      let same : task' ≡ task = ground arith in
      let others : rest ≡ t ∷ rest' = ground arith in
      rw (pick-remove_at job i ts us task' rest' p, pick) (rw (same, others) refl)
]

module _ {Db : Type 0} (job : ℕ → Job) where
  submit_task-IsSeen :
      (task : ℕ) (p : Pool) (m : Manager Db)
      → with_pool job (submit_task task p) m ≡ submit (job task) (with_pool job p m)
  unfolding submit_task submit
  submit_task-IsSeen task p m = elim (Bool-cases p.stopping) [
    | inl closed ↦ rw closed refl
    | inr runs ↦ rw runs (
        ap (λ jobs. record m { jobs = jobs; stopping = false })
          (ap (closures job) (sym (append_assoc p.running p.tasks (task ∷ [])))
            ∙ closures-append job (p.running ++ p.tasks) (task ∷ [])))
  ]

  stop-IsSeen :
      (p : Pool) (m : Manager Db)
      → with_pool job (stop p) m ≡ record (with_pool job p m) { stopping = true }
  unfolding stop
  stop-IsSeen p m = elim (Bool-cases p.stopping) [
    | inl closed ↦ rw closed refl
    | inr runs ↦ rw runs refl
  ]

  -- Each step of the pool is seen by the manager as one step of its jobs, or not at all: a task that
  -- submit lets in is the last job, and a task that ends is the job with its number among the
  -- running ones; what a worker takes, and its return, is not seen.
  pub pool_step-IsSeen :
      (e : PoolEvent) (p p' : Pool) (m : Manager Db) → pool_step e p ≡ some p' → IsSeen job e p p' m
  unfolding pool_step
  pool_step-IsSeen (submitted task) p p' m h =
      subst (λ q. IsSeen job (submitted task) p q m) (some_inj h) (submit_task-IsSeen task p m)
  pool_step-IsSeen taken p p' m h =
      let (idle, (task, rest, front, after)) = take-form p p' h in
      rw (after, front)
        (ap (λ ts. record m { jobs = closures job ts; stopping = p.stopping })
          (append_assoc p.running (task ∷ []) rest))
  pool_step-IsSeen left p p' m h =
      let (idle, stopping, none_left, after) = leave-form p p' h in rw after refl
  pool_step-IsSeen stopped p p' m h =
      subst (λ q. IsSeen job stopped p q m) (some_inj h) (stop-IsSeen p m)
  pool_step-IsSeen (finished i) p p' m h =
      let (task, rest, found, after) = finish-form i p p' h in
      (
        task,
        pick-remove_at job i p.running p.tasks task rest found
            ∙ ap (λ (q : Pool). some (job task, closures job (q.running ++ q.tasks))) (sym after),
        ap (λ (q : Pool). q.stopping) after,
      )

has_jobs-append :
    (job : ℕ → Job) (running tasks : List ℕ)
    → has_jobs (closures job (running ++ tasks))
      ≡ (not (is_empty_list tasks) || ltb 0 (length running))
has_jobs-append job [] [] = refl
has_jobs-append job [] (t ∷ ts) = refl
has_jobs-append job (r ∷ rs) [] = ground arith
has_jobs-append job (r ∷ rs) (t ∷ ts) = refl

-- The end of main waits exactly while the pool has pending tasks.
pub has_jobs-pending :
    {Db : Type 0} (job : ℕ → Job) (n : ℕ) (es : List PoolEvent) (p : Pool) (m : Manager Db)
    → Runs (new_pool n) es p
    → has_jobs (with_pool job p m).jobs ≡ has_pending_tasks p
unfolding has_pending_tasks
has_jobs-pending job n es p m r =
    has_jobs-append job p.running p.tasks
    ∙ ap (λ k. not (is_empty_list p.tasks) || ltb 0 k)
        (sym (Runs-IsCounted r (new_pool-IsCounted n)).counted)
