-- ===== src/Manager/Shutdown.antt =====
-- The end of the server: what follows the event loop in server/app/main.cpp, `ThreadPool::stop`, and the
-- destructor of SessionManager.
pub mod Termination
use cvcn.Common.{
  ℕ, ◌+◌, ◌≤◌, ◌<◌, ◌≡◌, ◌≢◌, refl, sym, ap, ◌∙◌, subst, arith, inl, inr, Bool, true, false, List,
  [], ◌∷◌, Option, none, some, All, ◌==◌, if◌then◌else◌, Bool-cases, Option-cases, length,
}
use cvcn.Common.Dict.{
  Dict, lookup, insert, erase, lookup-insert, lookup-erase, count_key, IsKeyed, IsKeyed-All,
}
use cvcn.Sender.{SendResult}
use cvcn.Session.{ClientSession}
use cvcn.Server.{Server, Repositories}
use cvcn.Manager.{Job, Manager, unregister, Event, worked, drained, step, drain, empty_manager}
use cvcn.Manager.Invariant.{Inv}
use cvcn.Manager.Safety.Events.{Allowed, step-Inv, Reach, empty-Inv, Reach-Inv}
use cvcn.Manager.Poller.{step_all}
use cvcn.Manager.Draining.Jobs.{works, round-shrinks}
use cvcn.Manager.Loop.{AllAllowed, step_all-Inv}

module _ {Db : Type 0} where
  -- One round of the destructor's loop: the object at `a`, none if it is deleted already. A session
  -- that is not closed is unregistered and closed.
  unfoldable pub destroy_session : ℕ → Server Db → Option (Server Db)
  destroy_session a st = elim (lookup a st.heap) [
    | none ↦ none
    | some s ↦ some (record st {
      registry = if s.closed then st.registry else unregister s.user_id a st.registry;
      heap = erase a st.heap;
    })
  ]

  unfoldable pub destroy_sessions : Dict ℕ → Server Db → Option (Server Db)
  destroy_sessions [] st = some st
  destroy_sessions (entry ∷ rest) st = elim (destroy_session entry.1 st) [
    | none ↦ none
    | some st' ↦ destroy_sessions rest st'
  ]

  unfoldable pub destroy_manager : Manager Db → Option (Manager Db)
  destroy_manager m = elim (destroy_sessions m.sessions m.server) [
    | none ↦ none
    | some st ↦ some (record m { server = st; sessions = [] })
  ]

-- `threadPool.hasPendingTasks()`
abbrev pub has_jobs : List Job → Bool
has_jobs [] = false
has_jobs (j ∷ js) = true

-- The result of the end of main: it still waits for the workers, or it is over.
pub data Ending (Db : Type 0) : Type 0 where
  waits over : Manager Db → Ending Db

-- `threadPool.stop()`, and the destructor.
abbrev pub end_program : {Db : Type 0} → Manager Db → Option (Ending Db)
end_program m = elim (destroy_manager (record m { stopping = true })) [
  | none ↦ none
  | some m' ↦ some (over m')
]

module _ {Db : Type 0} (repo : Repositories Db) (result : ℕ → ℕ → SendResult) where
  -- `while (threadPool.hasPendingTasks())`: the commands are run, and while the main thread sleeps
  -- workers end the jobs of a round, each as one step. Manager/Racing has the runs in which workers
  -- go on between the commands.
  unfoldable pub shut_down : List (List ℕ) → Manager Db → Option (Ending Db)
  shut_down [] m = if has_jobs m.jobs then some (waits m) else end_program m
  shut_down (ks ∷ rest) m = elim (has_jobs m.jobs) [
    | false ↦ end_program m
    | true ↦ elim (step_all repo result (drained ∷ works ks) m) [
      | none ↦ none
      | some m' ↦ shut_down rest m'
    ]
  ]

  -- Each job that ends is allowed in the state in which it does.
  abbrev pub AllWorks : List (List ℕ) → Manager Db → Type 0
  AllWorks [] m = Unit {0}
  AllWorks (ks ∷ rest) m =
      AllAllowed repo result (drained ∷ works ks) m
      × ((m' : Manager Db)
          → step_all repo result (drained ∷ works ks) m ≡ some m'
          → AllWorks rest m')

-- The entry's object is alive and has the entry's descriptor.
abbrev IsAlive : Dict ClientSession → ℕ × ℕ → Type 0
IsAlive heap entry =
    (s : ClientSession) × (lookup entry.1 heap ≡ some s) × (s.file_descriptor ≡ entry.0)

still-IsAlive :
    (key a : ℕ) (heap : Dict ClientSession) (s : ClientSession) (rest : Dict ℕ)
    → lookup a heap ≡ some s
    → s.file_descriptor ≡ key
    → count_key key rest ≡ 0
    → All (IsAlive heap) rest
    → All (IsAlive (erase a heap)) rest
still-IsAlive key a heap s [] e f once h = tt
still-IsAlive key a heap s (entry ∷ rest) e f once ((t, et, ft), hs) = (
  (t, ground (arith, lookup-erase a entry.1 heap), ft),
  still-IsAlive key a heap s rest e f (ground arith) hs,
)

lookup-All :
    (P : ℕ × ℕ → Type 0) (key value : ℕ) (d : Dict ℕ)
    → All P d
    → lookup key d ≡ some value
    → (k : ℕ) × P (k, value)
unfolding lookup
lookup-All P key value [] h e = absurd (cc)
lookup-All P key value (entry ∷ rest) (h, hs) e = elim (Bool-cases (entry.0 == key)) [
  | inl same ↦ (entry.0, subst (λ v. P (entry.0, v)) (ground arith) h)
  | inr other ↦ lookup-All P key value rest hs (ground arith)
]

module _ {Db : Type 0} where
  -- The loop deletes the object of each entry, and no other.
  destroy_sessions_lem :
      (d : Dict ℕ) (st : Server Db)
      → IsKeyed d
      → All (IsAlive st.heap) d
      → (st' : Server Db) × (destroy_sessions d st ≡ some st')
        × ((b : ℕ) (t : ClientSession)
            → lookup b st'.heap ≡ some t
            → (lookup b st.heap ≡ some t) × All (λ (entry : ℕ × ℕ). b ≢ entry.1) d)
  unfolding destroy_sessions destroy_session
  destroy_sessions_lem [] st once h = (st, refl, λ b t e. (e, tt))
  destroy_sessions_lem ((key, a) ∷ rest) st once ((s, es, fs), hs) =
      let st1 : Server Db = record st {
        registry = if s.closed then st.registry else unregister s.user_id a st.registry;
        heap = erase a st.heap;
      } in
      let (st', p, left) =
        destroy_sessions_lem rest st1 (λ k. omega (arith, once k))
          (still-IsAlive key a st.heap s rest es fs (ground (arith, once key)) hs) in
      (
        st',
        rw (es, destroy_sessions) p,
        λ b t e.
            let (before, others) = left b t e in
            (
              ground (arith, lookup-erase a b st.heap),
              ((λ same. ground (arith, lookup-erase a b st.heap)), others),
            ),
      )

  -- The destructor uses no deleted object and leaves none.
  pub destroy_manager_lem :
      (m m' : Manager Db)
      → Inv [] m
      → m'.server ≡ m.server
      → m'.sessions ≡ m.sessions
      → (n : Manager Db) × (destroy_manager m' ≡ some n) × ((a : ℕ) → lookup a n.server.heap ≡ none)
  unfolding destroy_manager
  destroy_manager_lem m m' v same_server same_sessions =
      let (st, p, left) =
        destroy_sessions_lem m.sessions m.server v.keyed
          (IsKeyed-All (λ k a. IsAlive m.server.heap (k, a)) m.sessions v.keyed v.entries) in
      (
        record m' { server = st; sessions = [] },
        rw (same_server, same_sessions, destroy_manager) (rw p refl),
        λ a. elim (Option-cases (lookup a st.heap)) [
          | inl gone ↦ gone
          | inr (t, e) ↦
              let (before, others) = left a t e in
              let (k, differs) =
                lookup-All (λ entry. a ≢ entry.1) t.file_descriptor a m.sessions others
                  (v.held a t before) in
              absurd (differs refl)
        ],
      )
