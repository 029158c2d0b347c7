-- ===== src/Manager/Draining/Jobs.antt =====
-- The jobs in a manager: the commands of the main thread keep them, and a worker takes one off.
use cvcn.Common.{
  ℕ, zero, suc, ◌-◌, ◌≤◌, ◌<◌, ◌≡◌, refl, ◌∙◌, arith, inl, inr, List, [], ◌∷◌, Option, none, some,
  Option-cases, length,
}
use cvcn.Common.Dict.{lookup, insert}
use cvcn.Sender.{SendResult}
use cvcn.Session.{ClientSession}
use cvcn.Server.{Repositories, SessionCommand, send_raw_command, close_command, task_done_command}
use cvcn.Manager.{
  Job, Manager, with_session, delete_session, close_client, defer, request_close_client,
  on_task_done, on_send_raw, without, run_command, run_commands, drain, pick, run_job, work, Event,
  worked, drained, step,
}
use cvcn.Manager.Poller.{step_all}

-- The jobs that workers end while the main thread sleeps, as events.
abbrev pub works : List ℕ → List Event
works [] = []
works (k ∷ ks) = worked k ∷ works ks

-- What a call gives, if it gives a state at all, has these jobs.
abbrev HasJobs : {Db : Type 0} → List Job → Option (Manager Db) → Type 0
HasJobs {Db} jobs r = (n : Manager Db) → r ≡ some n → n.jobs ≡ jobs

module _ {Db : Type 0} where
  with_session-jobs :
      (jobs : List Job) (fd : ℕ) (m : Manager Db) (f : ℕ → ClientSession → Option (Manager Db))
      → m.jobs ≡ jobs
      → ((a : ℕ) (s : ClientSession) → HasJobs jobs (f a s))
      → HasJobs jobs (with_session fd m f)
  with_session-jobs jobs fd m f e h n p = elim (Option-cases (lookup fd m.sessions)) [
    | inl none_there ↦ ground arith
    | inr (a, ea) ↦ elim (Option-cases (lookup a m.server.heap)) [
      | inl gone ↦ absurd (ground arith)
      | inr (s, es) ↦ h a s n (ground arith)
    ]
  ]

  close_client-jobs : (fd : ℕ) (m : Manager Db) → HasJobs m.jobs (close_client fd m)
  unfolding close_client delete_session
  close_client-jobs fd m = with_session-jobs m.jobs fd m _ refl (λ a s n p. ground arith)

  defer-jobs : (fd : ℕ) (m : Manager Db) → HasJobs m.jobs (defer fd m)
  unfolding defer
  defer-jobs fd m = with_session-jobs m.jobs fd _ _ refl (λ a s n p. ground arith)

  run_command-jobs :
      (result : ℕ → ℕ → SendResult) (c : SessionCommand) (m : Manager Db)
      → HasJobs m.jobs (run_command result c m)
  unfolding run_command on_send_raw request_close_client on_task_done
  run_command-jobs result (send_raw_command fd packet) m n p =
      with_session-jobs m.jobs fd m _ refl (λ a s n p. ground arith) n p
  run_command-jobs result (close_command fd) m n p =
      ground (arith, close_client-jobs fd m n, defer-jobs fd m n)
  run_command-jobs result (task_done_command fd) m n p =
      elim (Option-cases (lookup fd m.in_flight)) [
        | inl untracked ↦ ground arith
        | inr (k, e) ↦ ground (
          arith,
          close_client-jobs fd
              (record m {
                in_flight = insert fd (k - 1) m.in_flight;
                pending_delete = without fd m.pending_delete;
              })
              n,
        )
      ]

module _ {Db : Type 0} (repo : Repositories Db) (result : ℕ → ℕ → SendResult) where
  run_commands-jobs :
      (cs : List SessionCommand) (m : Manager Db) → HasJobs m.jobs (run_commands repo result cs m)
  unfolding run_commands
  run_commands-jobs [] m n p = ground arith
  run_commands-jobs (c ∷ cs) m n p = elim (Option-cases (run_command result c m)) [
    | inl faults ↦ absurd (ground arith)
    | inr (m1, e) ↦ run_commands-jobs cs m1 n (ground arith) ∙ run_command-jobs result c m m1 e
  ]

  drain-jobs : (m : Manager Db) → HasJobs m.jobs (drain repo result m)
  unfolding drain
  drain-jobs m n p = run_commands-jobs m.server.results _ n p

pick-length :
    (k : ℕ) (jobs : List Job) (job : Job) (rest : List Job)
    → pick k jobs ≡ some (job, rest)
    → suc (length rest) ≡ length jobs
unfolding pick
pick-length k [] job rest e = absurd (cc)
pick-length zero (j ∷ js) job rest e = ground arith
pick-length (suc k) (j ∷ js) job rest e = elim (Option-cases (pick k js)) [
  | inl p ↦ absurd (ground arith)
  | inr ((i, others), p) ↦ ground (arith, pick-length k js i others p)
]

pick-none : (k : ℕ) (jobs : List Job) → pick k jobs ≡ none → length jobs ≤ k
unfolding pick
pick-none k [] e = omega arith
pick-none zero (j ∷ js) e = absurd (cc)
pick-none (suc k) (j ∷ js) e = elim (Option-cases (pick k js)) [
  | inl p ↦ omega (arith, pick-none k js p)
  | inr ((i, others), p) ↦ absurd (ground arith)
]

module _ {Db : Type 0} (repo : Repositories Db) (result : ℕ → ℕ → SendResult) where
  -- A worker ends the job with the number, if there is one, and adds none.
  work-shrinks :
      (k : ℕ) (m n : Manager Db)
      → work repo k m ≡ some n
      → (length n.jobs ≤ length m.jobs) × (k < length m.jobs → length n.jobs < length m.jobs)
  unfolding work
  work-shrinks k m n p = elim (Option-cases (pick k m.jobs)) [
    | inl e ↦
        let same : n ≡ m = ground arith in
        (ground arith, λ busy. absurd (omega (arith, busy, pick-none k m.jobs e)))
    | inr ((job, rest), e) ↦ elim (Option-cases (run_job repo job m.server)) [
      | inl faults ↦ absurd (ground arith)
      | inr (st, q) ↦
          let same : n.jobs ≡ rest = ground arith in
          let shorter : suc (length rest) ≡ length m.jobs = pick-length k m.jobs job rest e in
          (ground arith, λ busy. ground arith)
    ]
  ]

  works-shrinks :
      (ks : List ℕ) (m n : Manager Db)
      → step_all repo result (works ks) m ≡ some n
      → length n.jobs ≤ length m.jobs
  unfolding step_all step
  works-shrinks [] m n p = ground arith
  works-shrinks (k ∷ ks) m n p = elim (Option-cases (work repo k m)) [
    | inl faults ↦ absurd (ground arith)
    | inr (m1, e) ↦ omega (arith, works-shrinks ks m1 n (ground arith), (work-shrinks k m m1 e).0)
  ]

  -- A round of the end of main in which the first worker ends a job leaves fewer jobs.
  pub round-shrinks :
      (k : ℕ) (ks : List ℕ) (m n : Manager Db)
      → k < length m.jobs
      → step_all repo result (drained ∷ works (k ∷ ks)) m ≡ some n
      → length n.jobs < length m.jobs
  unfolding step_all step
  round-shrinks k ks m n busy p = elim (Option-cases (drain repo result m)) [
    | inl faults ↦ absurd (ground arith)
    | inr (m1, e) ↦ elim (Option-cases (work repo k m1)) [
      | inl faults ↦ absurd (ground arith)
      | inr (m2, q) ↦
          let same : m1.jobs ≡ m.jobs = drain-jobs repo result m m1 e in
          let fewer : length m2.jobs < length m1.jobs = (work-shrinks k m1 m2 q).1 (ground arith) in
          let left : length n.jobs ≤ length m2.jobs = works-shrinks ks m2 n (ground arith) in
          ground arith
    ]
  ]
