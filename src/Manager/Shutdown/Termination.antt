-- ===== src/Manager/Shutdown/Termination.antt =====
-- What the end of the server comes to when the workers end each job as one step while the main thread
-- sleeps: it uses no deleted session object, and with busy workers it is over.
use cvcn.Common.{
  ℕ, ◌≤◌, ◌<◌, ◌≡◌, refl, arith, inl, inr, true, false, List, [], ◌∷◌, none, some, Bool-cases,
  length,
}
use cvcn.Common.Dict.{lookup}
use cvcn.Sender.{SendResult}
use cvcn.Server.{Repositories}
use cvcn.Manager.{Job, Manager, drained, empty_manager}
use cvcn.Manager.Invariant.{Inv}
use cvcn.Manager.Safety.Events.{Reach, empty-Inv, Reach-Inv}
use cvcn.Manager.Poller.{step_all}
use cvcn.Manager.Draining.Jobs.{works, round-shrinks}
use cvcn.Manager.Loop.{step_all-Inv}
use cvcn.Manager.Shutdown.{
  has_jobs, Ending, waits, over, end_program, shut_down, AllWorks, destroy_manager_lem,
}

has_jobs-none : (jobs : List Job) → length jobs ≡ 0 → has_jobs jobs ≡ false
has_jobs-none [] e = refl
has_jobs-none (j ∷ js) e = absurd (omega (arith, e))

has_jobs-some : (jobs : List Job) → has_jobs jobs ≡ true → 0 < length jobs
has_jobs-some [] e = absurd (cc)
has_jobs-some (j ∷ js) e = omega arith

-- What the end of main leaves behind: a server that still runs in order, or no session object.
abbrev pub IsEnded : {Db : Type 0} → Ending Db → Type 0
IsEnded (waits m) = Inv [] m
IsEnded (over m) = (a : ℕ) → lookup a m.server.heap ≡ none

end_program-IsEnded :
    {Db : Type 0} (m : Manager Db)
    → Inv [] m
    → (e : Ending Db) × (end_program m ≡ some e) × IsEnded e
end_program-IsEnded m v =
    let (n, p, empty) = destroy_manager_lem m (record m { stopping = true }) v refl refl in
    (over n, rw (p, end_program) refl, empty)

module _ {Db : Type 0} (repo : Repositories Db) (result : ℕ → ℕ → SendResult) where
  shut_down-IsEnded :
      (rounds : List (List ℕ)) (m : Manager Db)
      → Inv [] m
      → AllWorks repo result rounds m
      → (e : Ending Db) × (shut_down repo result rounds m ≡ some e) × IsEnded e
  unfolding shut_down
  shut_down-IsEnded [] m v may = elim (Bool-cases (has_jobs m.jobs)) [
    | inl some_left ↦ (waits m, rw (some_left, shut_down) refl, v)
    | inr none_left ↦
        let (e, p, ended) = end_program-IsEnded m v in (e, rw (none_left, shut_down) p, ended)
  ]
  shut_down-IsEnded (ks ∷ rest) m v (may, later) = elim (Bool-cases (has_jobs m.jobs)) [
    | inr none_left ↦
        let (e, p, ended) = end_program-IsEnded m v in (e, rw (none_left, shut_down) p, ended)
    | inl some_left ↦
        let (m1, q, v1) = step_all-Inv repo result (drained ∷ works ks) m v may in
        let (e, p, ended) = shut_down-IsEnded rest m1 v1 (later m1 q) in
        (e, rw (some_left, shut_down) (rw q p), ended)
  ]

  -- The first worker of each round ends a job, as long as there are jobs.
  abbrev pub AllBusy : List (List ℕ) → Manager Db → Type 0
  AllBusy [] m = Unit {0}
  AllBusy ([] ∷ rest) m = length m.jobs ≡ 0
  AllBusy ((k ∷ ks) ∷ rest) m =
      (0 < length m.jobs → k < length m.jobs)
      × ((m' : Manager Db)
          → step_all repo result (drained ∷ works (k ∷ ks)) m ≡ some m'
          → AllBusy rest m')

  pub none_left-over :
      (rounds : List (List ℕ)) (m : Manager Db)
      → has_jobs m.jobs ≡ false
      → Inv [] m
      → (n : Manager Db) × (shut_down repo result rounds m ≡ some (over n))
        × ((a : ℕ) → lookup a n.server.heap ≡ none)
  unfolding shut_down
  none_left-over [] m none_left v =
      let (n, p, empty) = destroy_manager_lem m (record m { stopping = true }) v refl refl in
      (n, rw (none_left, shut_down) (rw (p, end_program) refl), empty)
  none_left-over (ks ∷ rest) m none_left v =
      let (n, p, empty) = destroy_manager_lem m (record m { stopping = true }) v refl refl in
      (n, rw (none_left, shut_down) (rw (p, end_program) refl), empty)

  pub shut_down-over :
      (rounds : List (List ℕ)) (m : Manager Db)
      → length m.jobs ≤ length rounds
      → Inv [] m
      → AllWorks repo result rounds m
      → AllBusy rounds m
      → (n : Manager Db) × (shut_down repo result rounds m ≡ some (over n))
        × ((a : ℕ) → lookup a n.server.heap ≡ none)
  unfolding shut_down
  shut_down-over [] m enough v may busy =
      none_left-over [] m (has_jobs-none m.jobs (omega (arith, enough))) v
  shut_down-over ([] ∷ rest) m enough v may busy =
      none_left-over ([] ∷ rest) m (has_jobs-none m.jobs busy) v
  shut_down-over ((k ∷ ks) ∷ rest) m enough v (may, later) (busy, busy_later) =
      elim (Bool-cases (has_jobs m.jobs)) [
        | inr none_left ↦ none_left-over ((k ∷ ks) ∷ rest) m none_left v
        | inl some_left ↦
            let (m1, q, v1) = step_all-Inv repo result (drained ∷ works (k ∷ ks)) m v may in
            let fewer : length m1.jobs < length m.jobs =
              round-shrinks repo result k ks m m1 (busy (has_jobs-some m.jobs some_left)) q in
            let (n, p, empty) =
              shut_down-over rest m1 (omega (arith, enough, fewer)) v1 (later m1 q)
                (busy_later m1 q) in
            (n, rw (some_left, shut_down) (rw q p), empty)
      ]

  -- From every state that allowed events reach from an empty server, the end of main, whatever jobs
  -- the workers end in it, uses no deleted session object; when it is over no session object is left
  -- in memory.
  pub Reach-shut_down :
      (db : Db) (n : Manager Db) (rounds : List (List ℕ))
      → Reach repo result (empty_manager db) n
      → AllWorks repo result rounds n
      → (e : Ending Db) × (shut_down repo result rounds n ≡ some e) × IsEnded e
  Reach-shut_down db n rounds r may =
      shut_down-IsEnded rounds n (Reach-Inv repo result (empty-Inv db) r) may

  -- From every state that allowed events reach from an empty server, with jobs that end as whole steps
  -- while the main thread sleeps, the end of main is over and leaves no session object in memory, if
  -- there are as many rounds as jobs and the first worker of each round ends a job while jobs are left.
  pub Reach-ends :
      (db : Db) (n : Manager Db) (rounds : List (List ℕ))
      → Reach repo result (empty_manager db) n
      → AllWorks repo result rounds n
      → length n.jobs ≤ length rounds
      → AllBusy rounds n
      → (m : Manager Db) × (shut_down repo result rounds n ≡ some (over m))
        × ((a : ℕ) → lookup a m.server.heap ≡ none)
  Reach-ends db n rounds r may enough busy =
      shut_down-over rounds n enough (Reach-Inv repo result (empty-Inv db) r) may busy
