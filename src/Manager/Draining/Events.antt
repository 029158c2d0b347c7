-- ===== src/Manager/Draining/Events.antt =====
-- Every allowed event keeps the closed sessions waiting for their tasks, so that none is left over.
use cvcn.Common.{
  some_inj, ℕ, ◌≡◌, ◌<◌, refl, sym, ap, ◌∙◌, subst, arith, inl, inr, true, false, List, [], ◌∷◌,
  ◌++◌, Option, some, Bool-cases, Option-cases,
}
use cvcn.Common.Dict.{lookup}
use cvcn.Sender.{SendResult}
use cvcn.Session.{ClientSession}
use cvcn.Server.{Server, Repositories, SessionCommand, task_done_command}
use cvcn.Server.Safety.{Evolves}
use cvcn.Manager.{
  Job, Manager, flights, run_command, Event, connected, readable, writable, broken, worked, drained,
  pick, contains, run_commands, drain, work, step, empty_manager,
}
use cvcn.Manager.Invariant.{Inv}
use cvcn.Manager.Safety.Commands.{run_command-Safe, Safe-some}
use cvcn.Manager.Safety.Events.{
  Allowed, drained-Inv, pick-served, run_job-Evolves, Reach, start, next, empty-Inv, Reach-Inv,
}
use cvcn.Manager.Draining.{IsDraining, Nobody, Drains}
use cvcn.Manager.Draining.Commands.{
  on_error-Drains, on_read-Drains, on_write-Drains, run_command-Drains,
  on_new_connection-IsDraining,
}

Drains-some :
    {Db : Type 0} (o : Option (Manager Db)) (m : Manager Db)
    → Drains o
    → o ≡ some m
    → IsDraining Nobody m
Drains-some o m h e = subst Drains e h

module _ {Db : Type 0} (repo : Repositories Db) where
  -- A job opens and closes no session.
  evolved-IsDraining :
      (m : Manager Db) (st : Server Db) (jobs : List Job) (results : List SessionCommand)
      → Evolves m.server st
      → IsDraining Nobody m
      → IsDraining Nobody (record m { server = record st { results = results }; jobs = jobs })
  evolved-IsDraining m st jobs results grown h k a t p q shut =
      elim (Option-cases (lookup a m.server.heap)) [
        | inl gone ↦ absurd (let still = grown.absent a gone in cc)
        | inr (s, es) ↦
            let (s2, es2, same) = grown.objects a s es in
            let one : s2 ≡ t = some_inj (sym es2 ∙ q) in
            h k a s p es (sym same.closing ∙ ap (λ (r : ClientSession). r.closed) one ∙ shut)
      ]

  work-Drains :
      (k : ℕ) (m : Manager Db)
      → Inv [] m
      → Allowed (worked k) m
      → IsDraining Nobody m
      → Drains (work repo k m)
  unfolding work
  work-Drains k m v may h = elim (Option-cases (pick k m.jobs)) [
    | inl none_left ↦ rw (none_left, work) h
    | inr ((job, rest), p) ↦
        let (here, others) = pick-served k m.sessions m.jobs job rest p v.served in
        let (s, es, fs) = v.entries job.fd job.session here in
        let (st, ran, owned, grown) =
          run_job-Evolves repo job m.server s v.owned es (may job rest s p es) in
        rw (p, work)
          (rw ran
            (evolved-IsDraining m st rest (st.results ++ task_done_command job.fd ∷ []) grown h))
  ]

module _ {Db : Type 0} (repo : Repositories Db) (result : ℕ → ℕ → SendResult) where
  run_commands-Drains :
      (cs : List SessionCommand) (m : Manager Db)
      → Inv cs m
      → IsDraining Nobody m
      → Drains (run_commands repo result cs m)
  unfolding run_commands
  run_commands-Drains [] m v h = h
  run_commands-Drains (c ∷ cs) m v h =
      let (m', e, v') = Safe-some cs (run_command result c m) (run_command-Safe result c cs m v) in
      rw (e, run_commands)
        (run_commands-Drains cs m' v'
          (Drains-some (run_command result c m) m' (run_command-Drains result c cs m v h) e))

  drain-Drains : (m : Manager Db) → Inv [] m → IsDraining Nobody m → Drains (drain repo result m)
  unfolding drain
  drain-Drains m v h = run_commands-Drains m.server.results _ (drained-Inv m v) h

  -- After an allowed event every closed session still waits for a task whose end will delete it.
  pub step-Drains :
      (e : Event) (m : Manager Db)
      → Inv [] m
      → Allowed e m
      → IsDraining Nobody m
      → Drains (step repo result e m)
  unfolding step
  step-Drains (connected fd) m v may h = on_new_connection-IsDraining fd m v h
  step-Drains (readable fd recv) m v may h = on_read-Drains [] fd recv m v h
  step-Drains (writable fd) m v may h = on_write-Drains [] (result fd) fd m v h
  step-Drains (broken fd) m v may h = on_error-Drains [] fd m v h
  step-Drains (worked k) m v may h = work-Drains repo k m v may h
  step-Drains drained m v may h = drain-Drains m v h

  Reach-IsDraining :
      {m n : Manager Db}
      → Inv [] m
      → IsDraining Nobody m
      → Reach repo result m n
      → IsDraining Nobody n
  Reach-IsDraining v h start = h
  Reach-IsDraining v h (next {n} {n'} r e may p) =
      Drains-some (step repo result e n) n'
        (step-Drains e n (Reach-Inv repo result v r) may (Reach-IsDraining v h r)) p

  empty-IsDraining : (db : Db) → IsDraining Nobody (empty_manager db)
  unfolding empty_manager
  empty-IsDraining db fd a s p q shut = unfold lookup in absurd (cc)

  -- In every state that allowed events reach from an empty server, every session object in memory
  -- is the session of its descriptor, and a closed one is in `pendingDelete_` with a task in flight.
  pub Reach-waits :
      (db : Db) (n : Manager Db)
      → Reach repo result (empty_manager db) n
      → (a : ℕ) (s : ClientSession) → lookup a n.server.heap ≡ some s
      → (lookup s.file_descriptor n.sessions ≡ some a)
        × (s.closed ≡ true
            → (contains s.file_descriptor n.pending_delete ≡ true)
              × (0 < flights s.file_descriptor n.in_flight))
  Reach-waits db n r a s e =
      let held = (Reach-Inv repo result (empty-Inv db) r).held a s e in
      let h = Reach-IsDraining (empty-Inv db) (empty-IsDraining db) r in
      (
        held,
        λ shut. elim (h s.file_descriptor a s held e shut) [
          | inl no_one ↦ absurd no_one
          | inr w ↦ w
        ],
      )

  -- In every state that allowed events reach from an empty server and in which no job and no command
  -- is left, every session object in memory is open and has no task in flight: no deferred deletion
  -- is forgotten.
  pub Reach-deletes :
      (db : Db) (n : Manager Db)
      → Reach repo result (empty_manager db) n
      → n.jobs ≡ []
      → n.server.results ≡ []
      → (a : ℕ) (s : ClientSession) → lookup a n.server.heap ≡ some s
      → (s.closed ≡ false) × (flights s.file_descriptor n.in_flight ≡ 0)
  Reach-deletes db n r no_job no_command a s e =
      let v = Reach-Inv repo result (empty-Inv db) r in
      let quiet : flights s.file_descriptor n.in_flight ≡ 0 =
        sym (v.counted s.file_descriptor) ∙ rw (no_job, no_command) refl in
      (
        elim (Bool-cases s.closed) [
          | inl shut ↦ absurd (omega (arith, quiet, ((Reach-waits db n r a s e).1 shut).1))
          | inr still_running ↦ still_running
        ],
        quiet,
      )
