-- ===== src/Manager/Hazards.antt =====
-- What the three events that `Allowed` excludes do: server/net/SessionManager.cpp with
-- server/net/EventPoller.cpp, server/services/AuthService.cpp and server/services/MessageService.cpp.
use cvcn.Common.{
  ℕ, ◌≤◌, ◌≡◌, ◌≢◌, refl, ap, ◌∙◌, arith, true, false, List, [], ◌∷◌, Option, none, some, ltb,
  if_rule,
}
use cvcn.Common.Dict.{Dict, lookup, insert, erase, lookup-insert, lookup-erase}
use cvcn.Wire.Bytes.{Bytes}
use cvcn.Sender.{SendResult}
use cvcn.Session.{
  ClientSession, closed_by_peer, new_session, close_session, handle_read, handle_write,
}
use cvcn.Server.{Repositories, task_done_command, deref, send_raw, ◌>>=◌}
use cvcn.Server.Registry.{find_by_user_id, find-unregister}
use cvcn.Server.Services.{deliver}
use cvcn.Manager.Poller.{callbacks, step_all, poll}
use cvcn.Manager.{
  Event, Job, Manager, flights, put_object, submit_all, delete_session, with_session, close_client,
  defer, close_or_defer, on_read, on_write, on_error, without, broken, unregister, run_job,
  on_new_connection, run_command, on_task_done, contains, connected, readable, writable, worked,
  pick, work, step,
}

with_session-entry :
    {Db : Type 0} (fd a : ℕ) (m : Manager Db) (s : ClientSession)
    (use_it : ℕ → ClientSession → Option (Manager Db))
    → lookup fd m.sessions ≡ some a
    → lookup a m.server.heap ≡ some s
    → with_session fd m use_it ≡ use_it a s
with_session-entry fd a m s use_it e es = rw (e, with_session) (rw es)

lookup-put : {V : Type 0} (a : ℕ) (v : V) (d : Dict V) → lookup a (insert a v d) ≡ some v
lookup-put a v d = ground (arith, lookup-insert a a v d)

pub lookup-gone : {V : Type 0} (a : ℕ) (d : Dict V) → lookup a (erase a d) ≡ none
lookup-gone a d = ground (arith, lookup-erase a a d)

pub close_client-entry :
    {Db : Type 0} (fd a : ℕ) (m : Manager Db) (s : ClientSession)
    → lookup fd m.sessions ≡ some a
    → lookup a m.server.heap ≡ some s
    → close_client fd m ≡ some (delete_session fd a s m)
unfolding close_client
close_client-entry fd a m s e es = with_session-entry fd a m s _ e es

-- A session that is not the user's last login leaves the user's entry in the registry.
unregister-other :
    (u a : ℕ) (w : Option ℕ) (r : Dict ℕ)
    → w ≢ some u
    → lookup u r ≡ some a
    → lookup u (unregister w a r) ≡ some a
unfolding unregister find_by_user_id
unregister-other u a none r other e = e
unregister-other u a (some w) r other e = ground (arith, find-unregister w u a r, other, e)

module _ {Db : Type 0} (repo : Repositories Db) (result : ℕ → ℕ → SendResult) where
  step_all-cons :
      (e : Event) (es : List Event) (m m' : Manager Db)
      → step repo result e m ≡ some m'
      → step_all repo result (e ∷ es) m ≡ step_all repo result es m'
  unfolding step_all
  step_all-cons e es m m' p = rw (p, step_all)

  -- A worker that runs a job whose session object is deleted uses the deleted object.
  deleted-faults :
      (k : ℕ) (m : Manager Db) (job : Job) (rest : List Job)
      → pick k m.jobs ≡ some (job, rest)
      → lookup job.session m.server.heap ≡ none
      → step repo result (worked k) m ≡ none
  unfolding step work run_job
  deleted-faults k m job rest p gone = rw (p, work) (rw (gone, run_job))

  -- EPOLLOUT on a closed session deletes it, whatever tasks are in flight.
  writing-deletes :
      (fd a : ℕ) (m : Manager Db) (s : ClientSession)
      → lookup fd m.sessions ≡ some a
      → lookup a m.server.heap ≡ some s
      → s.closed ≡ true
      → (m' : Manager Db) × (step repo result (writable fd) m ≡ some m')
        × (lookup a m'.server.heap ≡ none)
        × (m'.jobs ≡ m.jobs)
  unfolding step on_write delete_session
  writing-deletes fd a m s e es shut =
      let s' : ClientSession = handle_write (result fd) s in
      let m1 : Manager Db = put_object a s' m in
      (
        delete_session fd a s' m1,
        with_session-entry fd a m s _ e es
            ∙ if_rule (λ r. r ≡ some (delete_session fd a s' m1)) s.closed _ _
                (λ _. close_client-entry fd a m1 s' e (lookup-put a s' m.server.heap))
                (λ open_still. cc),
        lookup-gone a m1.server.heap,
        refl,
      )

  -- EPOLLIN that finds the end of the stream defers the deletion of a session with tasks.
  hang_up-defers :
      (fd a : ℕ) (m : Manager Db) (s : ClientSession)
      → lookup fd m.sessions ≡ some a
      → lookup a m.server.heap ≡ some s
      → 1 ≤ flights fd m.in_flight
      → (m' : Manager Db) × (s' : ClientSession) × (step repo result (readable fd closed_by_peer) m
          ≡ some m')
        × (lookup fd m'.sessions ≡ some a)
        × (lookup a m'.server.heap ≡ some s')
        × (s'.closed ≡ true)
        × (m'.jobs ≡ m.jobs)
  unfolding step on_read handle_read close_session submit_all close_or_defer defer
  hang_up-defers fd a m s e es busy =
      let s' : ClientSession = record s { closed = true } in
      let m1 : Manager Db = put_object a s' m in
      let m2 : Manager Db = record m1 { pending_delete = fd ∷ without fd m.pending_delete } in
      (
        put_object a s' m2,
        s',
        with_session-entry fd a m s _ e es
            ∙ if_rule (λ r. r ≡ some (put_object a s' m2)) (ltb 0 (flights fd m.in_flight)) _ _
                (λ _. with_session-entry fd a m2 s' _ e (lookup-put a s' m.server.heap))
                (λ none_left. absurd (ground arith)),
        e,
        lookup-put a s' m1.server.heap,
        refl,
        refl,
      )

  -- When the peer hangs up a session with tasks in flight and epoll reports its descriptor as both
  -- readable and writable, one round of the event loop deletes the session object, and the next
  -- worker that runs a job of the session uses the deleted object.
  pub poll-faults :
      (fd k : ℕ) (m : Manager Db) (job : Job) (rest : List Job) (s : ClientSession)
      → lookup fd m.sessions ≡ some job.session
      → lookup job.session m.server.heap ≡ some s
      → 1 ≤ flights fd m.in_flight
      → pick k m.jobs ≡ some (job, rest)
      → (m' : Manager Db) × (poll repo result fd
            (record { has_error = false; input = some closed_by_peer; output = true })
            m
          ≡ some m')
        × (step repo result (worked k) m' ≡ none)
  unfolding poll step_all callbacks
  poll-faults fd k m job rest s e es busy p =
      let (m1, s1, p1, e1, es1, shut, js1) = hang_up-defers fd job.session m s e es busy in
      let (m2, p2, gone, js2) = writing-deletes fd job.session m1 s1 e1 es1 shut in
      (
        m2,
        step_all-cons (readable fd closed_by_peer) (writable fd ∷ []) m m1 p1
            ∙ step_all-cons (writable fd) [] m1 m2 p2,
        deleted-faults k m2 job rest (ap (pick k) (js2 ∙ js1) ∙ p) gone,
      )

  -- When a session that the registry names for a user, and that is logged in as another user now,
  -- is closed with no task in flight, the registry still names its deleted object for the first
  -- user, and a message of anybody else for that user uses the deleted object.
  pub relogin-dangles :
      (fd a u exclude : ℕ) (packet : Bytes) (m : Manager Db) (s : ClientSession)
      → lookup fd m.sessions ≡ some a
      → lookup a m.server.heap ≡ some s
      → flights fd m.in_flight ≡ 0
      → lookup u m.server.registry ≡ some a
      → s.user_id ≢ some u
      → u ≢ exclude
      → (m' : Manager Db) × (step repo result (broken fd) m ≡ some m')
        × (find_by_user_id u m'.server.registry ≡ some a)
        × (lookup a m'.server.heap ≡ none)
        × (deliver repo exclude packet u m'.server ≡ none)
  unfolding step on_error close_or_defer find_by_user_id delete_session deliver send_raw deref ◌>>=◌
  relogin-dangles fd a u exclude packet m s e es quiet r other apart =
      let m' : Manager Db = delete_session fd a s m in
      let stays : lookup u m'.server.registry ≡ some a =
        unregister-other u a s.user_id m.server.registry other r in
      let gone = lookup-gone a m.server.heap in
      (
        m',
        if_rule (λ r. r ≡ some m') (ltb 0 (flights fd m.in_flight)) _ _
            (λ busy. absurd (ground arith)) (λ _. close_client-entry fd a m s e es),
        stays,
        gone,
        ground (arith, stays, gone, apart),
      )

  -- When a connection arrives on the descriptor of a closed session whose deletion is deferred, the
  -- session that serves the connection is deleted at the end of the closed session's task, and the
  -- object of the closed session stays in memory with no descriptor that names it.
  pub reused_descriptor-closes :
      (fd a : ℕ) (m : Manager Db) (s : ClientSession)
      → lookup fd m.sessions ≡ some a
      → lookup a m.server.heap ≡ some s
      → a ≢ m.next_address
      → contains fd m.pending_delete ≡ true
      → ((k : ℕ) → k ≢ fd → lookup k m.sessions ≢ some a)
      → (m1 : Manager Db) × (m2 : Manager Db) × (step repo result (connected fd) m ≡ some m1)
        × (run_command result (task_done_command fd) m1 ≡ some m2)
        × (lookup fd m2.sessions ≡ none)
        × (lookup m.next_address m2.server.heap ≡ none)
        × (lookup a m2.server.heap ≡ some s)
        × ((k : ℕ) → lookup k m2.sessions ≢ some a)
  unfolding step on_new_connection run_command on_task_done delete_session new_session
  reused_descriptor-closes fd a m s e es old deferred only =
      let t : ClientSession = new_session fd in
      let b = m.next_address in
      let m1 : Manager Db = on_new_connection fd m in
      let m1' : Manager Db = record m1 {
        in_flight = insert fd 0 m1.in_flight;
        pending_delete = without fd m.pending_delete;
      } in
      (
        m1,
        delete_session fd b t m1',
        refl,
        rw (lookup-put fd 0 m.in_flight, on_task_done)
            (rw deferred (
              close_client-entry fd b m1' t (lookup-put fd b m.sessions)
                (lookup-put b t m.server.heap))),
        lookup-gone fd m1.sessions,
        lookup-gone b m1.server.heap,
        ground (arith, lookup-erase b a m1.server.heap, lookup-insert b a t m.server.heap, es, old),
        λ k p.
            ground
              (arith, lookup-erase fd k m1.sessions, lookup-insert fd k b m.sessions, only k, p),
      )
