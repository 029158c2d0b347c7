-- ===== src/Manager/Safety/Events.antt =====
-- Every event keeps the invariant, but for the three that `Allowed` excludes. A job is one step here;
-- Manager/Racing takes its broadcast apart.
use cvcn.Common.{
  some_inj, ℕ, zero, suc, ◌+◌, ◌≡◌, ◌≢◌, refl, sym, ◌∙◌, arith, subst, ◌⊎◌, inl, inr, true, List,
  [], ◌∷◌, ◌++◌, none, some, All, ◌==◌, if◌then◌else◌, Bool-cases, Option-cases,
}
use cvcn.Common.Dict.{Dict, lookup}
use cvcn.Sender.{SendResult}
use cvcn.Session.{ClientSession}
use cvcn.Server.{Server, Repositories, SessionCommand, task_done_command}
use cvcn.Server.Dispatcher.{route, authenticates}
use cvcn.Server.Safety.{count_done-append, Evolves, Evolves-refl}
use cvcn.Server.Safety.Login.{IsOwned, dispatch-IsOwned}
use cvcn.Manager.{
  Job, Manager, flights, on_new_connection, run_command, run_job, Event, connected, readable,
  writable, broken, worked, drained, pick, run_commands, drain, work, step, empty_manager,
}
use cvcn.Manager.Invariant.{Inv, HasSession, count_jobs}
use cvcn.Manager.Safety.{Safe, on_read-Safe, on_write-Safe, on_error-Safe}
use cvcn.Manager.Safety.Commands.{run_command-Safe, Safe-some, on_new_connection-Inv}

-- What picking a job takes off the list.
pub pick-served :
    (k : ℕ) (sessions : Dict ℕ) (jobs : List Job) (job : Job) (rest : List Job)
    → pick k jobs ≡ some (job, rest)
    → All (HasSession sessions) jobs
    → HasSession sessions job × All (HasSession sessions) rest
unfolding pick
pick-served k sessions [] job rest e h = cc
pick-served zero sessions (j ∷ js) job rest e (h, hs) = (ground arith, ground arith)
pick-served (suc k) sessions (j ∷ js) job rest e (h, hs) = elim (Option-cases (pick k js)) [
  | inl p ↦ absurd (ground arith)
  | inr ((i, others), p) ↦
      let (hi, ho) = pick-served k sessions js i others p hs in
      (ground arith, ground (arith, h, ho))
]

pick-count :
    (k fd : ℕ) (jobs : List Job) (job : Job) (rest : List Job)
    → pick k jobs ≡ some (job, rest)
    → count_jobs fd jobs ≡ (if job.fd == fd then 1 else 0) + count_jobs fd rest
unfolding pick
pick-count k fd [] job rest e = cc
pick-count zero fd (j ∷ js) job rest e = ground arith
pick-count (suc k) fd (j ∷ js) job rest e = elim (Option-cases (pick k js)) [
  | inl p ↦ absurd (ground arith)
  | inr ((i, others), p) ↦ ground (arith, pick-count k fd js i others p)
]

-- The events that the theorems are about: a new connection has a descriptor that no session has;
-- EPOLLOUT finds no closed session with tasks in flight; no login runs on a session that is logged
-- in already.
abbrev pub Allowed : {Db : Type 0} → Event → Manager Db → Type 0
Allowed (connected fd) m = lookup fd m.sessions ≡ none
Allowed (readable fd recv) m = Unit {0}
Allowed (writable fd) m =
    (a : ℕ) (s : ClientSession)
    → lookup fd m.sessions ≡ some a
    → lookup a m.server.heap ≡ some s
    → s.closed ≡ true
    → flights fd m.in_flight ≡ 0
Allowed (broken fd) m = Unit {0}
Allowed (worked k) m =
    (job : Job) (rest : List Job) (s : ClientSession)
    → pick k m.jobs ≡ some (job, rest)
    → lookup job.session m.server.heap ≡ some s
    → (s.user_id ≡ none) ⊎ (route job.header.type ≢ authenticates)
Allowed drained m = Unit {0}

module _ {Db : Type 0} (repo : Repositories Db) where
  pub run_job-Evolves :
      (job : Job) (st : Server Db) (s : ClientSession)
      → IsOwned st.registry st.heap
      → lookup job.session st.heap ≡ some s
      → (s.user_id ≡ none) ⊎ (route job.header.type ≢ authenticates)
      → (st' : Server Db) × (run_job repo job st
          ≡ some (record st' { results = st'.results ++ task_done_command job.fd ∷ [] }))
        × IsOwned st'.registry st'.heap
        × Evolves st st'
  unfolding run_job
  run_job-Evolves job st s owned e may = elim (Bool-cases s.closed) [
    | inl shut ↦ (st, rw (e, run_job) (rw shut), owned, Evolves-refl st)
    | inr open_still ↦
        let (st', p, owned', k) =
          dispatch-IsOwned repo job.session job.header job.body st s owned e may in
        (st', rw (e, run_job) (rw (open_still, p)), owned', k)
  ]

  -- The server after a job, and the job gone.
  pub finished-Inv :
      (todo : List SessionCommand) (k : ℕ) (m : Manager Db) (job : Job) (rest : List Job)
      (st : Server Db)
      → Inv todo m
      → pick k m.jobs ≡ some (job, rest)
      → IsOwned st.registry st.heap
      → Evolves m.server st
      → Inv todo (record m {
        server = record st { results = st.results ++ task_done_command job.fd ∷ [] };
        jobs = rest;
      })
  finished-Inv todo k m job rest st v p owned grown = record {
    owned = owned;
    entries = λ fd a e.
        let (s, es, fs) = v.entries fd a e in
        let (s', es', same) = grown.objects a s es in (s', es', same.descriptor ∙ fs);
    served = (pick-served k m.sessions m.jobs job rest p v.served).1;
    counted = λ fd. ground (
      arith,
      v.counted fd,
      grown.dones fd,
      pick-count k fd m.jobs job rest p,
      count_done-append fd st.results (task_done_command job.fd ∷ []),
    );
    running = v.running;
    keyed = v.keyed;
    held = λ a s' e. elim (Option-cases (lookup a m.server.heap)) [
      | inl gone ↦ absurd (let still = grown.absent a gone in cc)
      | inr (s, es) ↦
          let (s2, es2, same) = grown.objects a s es in
          let one : s2 ≡ s' = some_inj (sym es2 ∙ e) in
          subst (λ (t : ClientSession). lookup t.file_descriptor m.sessions ≡ some a) one
            (rw same.descriptor (v.held a s es))
    ];
    idle = v.idle;
    fresh = λ a le. grown.absent a (v.fresh a le);
  }

  pub work-Inv :
      (todo : List SessionCommand) (k : ℕ) (m : Manager Db)
      → Inv todo m
      → Allowed (worked k) m
      → (m' : Manager Db) × (work repo k m ≡ some m') × Inv todo m'
  unfolding work
  work-Inv todo k m v may = elim (Option-cases (pick k m.jobs)) [
    | inl none_left ↦ (m, rw (none_left, work), v)
    | inr ((job, rest), p) ↦
        let (here, others) = pick-served k m.sessions m.jobs job rest p v.served in
        let (s, es, fs) = v.entries job.fd job.session here in
        let (st, ran, owned, grown) =
          run_job-Evolves job m.server s v.owned es (may job rest s p es) in
        (
          record m {
            server = record st { results = st.results ++ task_done_command job.fd ∷ [] };
            jobs = rest;
          },
          rw (p, work) (rw ran),
          finished-Inv todo k m job rest st v p owned grown,
        )
  ]

pub empty-Inv : {Db : Type 0} (db : Db) → Inv [] (empty_manager db)
unfolding empty_manager
empty-Inv db = record {
  owned = λ u a e. unfold lookup in cc;
  entries = λ fd a e. unfold lookup in cc;
  served = tt;
  counted = λ fd. unfold lookup in omega arith;
  running = refl;
  keyed = λ fd. omega arith;
  held = λ a s e. unfold lookup in cc;
  idle = λ fd e. unfold lookup in refl;
  fresh = λ a e. unfold lookup in refl;
}

-- The queue is emptied and its commands are to be run.
pub drained-Inv :
    {Db : Type 0} (m : Manager Db)
    → Inv [] m
    → Inv m.server.results (record m { server = record m.server { results = [] } })
drained-Inv m v = record {
  owned = v.owned;
  entries = v.entries;
  served = v.served;
  counted = λ fd. omega (arith, v.counted fd);
  running = v.running;
  keyed = v.keyed;
  held = v.held;
  idle = v.idle;
  fresh = v.fresh;
}

module _ {Db : Type 0} (repo : Repositories Db) (result : ℕ → ℕ → SendResult) where
  run_commands-Safe :
      (cs : List SessionCommand) (m : Manager Db)
      → Inv cs m
      → Safe [] (run_commands repo result cs m)
  unfolding run_commands
  run_commands-Safe [] m v = v
  run_commands-Safe (c ∷ cs) m v =
      let (m', e, v') = Safe-some cs (run_command result c m) (run_command-Safe result c cs m v) in
      rw (e, run_commands) (run_commands-Safe cs m' v')

  drain-Safe : (m : Manager Db) → Inv [] m → Safe [] (drain repo result m)
  unfolding drain
  drain-Safe m v = run_commands-Safe m.server.results _ (drained-Inv m v)

  -- From a state with the invariant, every allowed event ends without a use of a deleted session
  -- object, and in a state with the invariant.
  pub step-Inv :
      (e : Event) (m : Manager Db)
      → Inv [] m
      → Allowed e m
      → (m' : Manager Db) × (step repo result e m ≡ some m') × Inv [] m'
  unfolding step
  step-Inv (connected fd) m v may = (on_new_connection fd m, refl, on_new_connection-Inv fd m v may)
  step-Inv (readable fd recv) m v may = Safe-some [] _ (on_read-Safe [] fd recv m v)
  step-Inv (writable fd) m v may = Safe-some [] _ (on_write-Safe [] (result fd) fd m v may)
  step-Inv (broken fd) m v may = Safe-some [] _ (on_error-Safe [] fd m v)
  step-Inv (worked k) m v may = work-Inv repo [] k m v may
  step-Inv drained m v may = Safe-some [] _ (drain-Safe m v)

  -- The states that a server reaches by allowed events.
  pub data Reach (m : Manager Db) : Manager Db → Type 0 where
    start : Reach m m
    next :
        {n n' : Manager Db}
        → Reach m n
        → (e : Event) → Allowed e n
        → step repo result e n ≡ some n'
        → Reach m n'

  pub Reach-Inv : {m n : Manager Db} → Inv [] m → Reach m n → Inv [] n
  Reach-Inv v start = v
  Reach-Inv v (next {n} r e may p) =
      let (n1, q, v1) = step-Inv e n (Reach-Inv v r) may in subst (Inv []) (some_inj (sym q ∙ p)) v1

  -- In every state that is reached from an empty server by allowed events, the next allowed event
  -- uses no deleted session object, and every submitted job, waiting or running, has its session
  -- object alive under its own descriptor.
  pub Reach-safe :
      (db : Db) (n : Manager Db)
      → Reach (empty_manager db) n
      → ((e : Event) → Allowed e n → (n' : Manager Db) × (step repo result e n ≡ some n'))
        × ((k : ℕ) (job : Job) (rest : List Job)
            → pick k n.jobs ≡ some (job, rest)
            → (s : ClientSession) × (lookup job.session n.server.heap ≡ some s)
              × (s.file_descriptor ≡ job.fd))
  Reach-safe db n r =
      let v = Reach-Inv (empty-Inv db) r in
      (
        λ e may. let (n', p, v') = step-Inv e n v may in (n', p),
        λ k job rest p.
            v.entries job.fd job.session (pick-served k n.sessions n.jobs job rest p v.served).0,
      )
