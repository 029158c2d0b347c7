-- ===== src/Manager/Safety.antt =====
-- The calls of the main thread on one session keep the invariant, and use no deleted session.
pub mod Commands
pub mod Events
use cvcn.Common.{
  ℕ, zero, suc, ◌+◌, ◌-◌, ◌≤◌, ◌<◌, ◌≡◌, ◌≢◌, refl, sym, ap, ◌∙◌, arith, subst, ◌⊎◌, inl, inr, Bool,
  true, false, List, [], ◌∷◌, ◌++◌, Option, none, some, All, All-append, ltb, ltb→le, if_rule, ◌==◌,
  if◌then◌else◌, Bool-cases, Option-cases,
}
use cvcn.Common.Dict.{Dict, lookup, insert, erase, lookup-insert, lookup-erase}
use cvcn.Wire.Bytes.{Bytes}
use cvcn.Framing.Server.{Packet}
use cvcn.Sender.{SendResult}
use cvcn.Session.{
  ClientSession, Recv, chunk, closed_by_peer, would_block, failed, new_session, close_session,
  receive, handle_read, handle_write, send_raw_direct,
}
use cvcn.Server.{
  Server, Repositories, SessionCommand, send_raw_command, close_command, task_done_command,
}
use cvcn.Server.Dispatcher.{dispatch, route, authenticates}
use cvcn.Server.Safety.{count_done, count_done-append, Evolves}
use cvcn.Server.Safety.Login.{IsOwned, dispatch-IsOwned}
use cvcn.Manager.{
  Job, Manager, flights, put_object, on_new_connection, submit, submit_all, delete_session,
  with_session, close_client, defer, close_or_defer, on_read, on_write, on_error,
  request_close_client, on_task_done, contains, without, on_send_raw, run_command, run_job, Event,
  connected, readable, writable, broken, worked, drained, pick, run_commands, drain, work, step,
}
use cvcn.Manager.Invariant.{
  Inv, HasSession, count_jobs, count_jobs-append, put_object-Inv, delete_session-Inv,
  flights-insert,
}

-- No deleted object is used, and the invariant holds after the call.
abbrev pub Safe : {Db : Type 0} → List SessionCommand → Option (Manager Db) → Type 0
Safe todo none = ⊥
Safe todo (some m) = Inv todo m

-- A read changes neither the descriptor nor the user.
pub handle_read-identity :
    (r : Recv) (s : ClientSession)
    → ((handle_read r s).1.file_descriptor ≡ s.file_descriptor)
      × ((handle_read r s).1.user_id ≡ s.user_id)
unfolding handle_read close_session
handle_read-identity (chunk bytes more) s =
    let s' : ClientSession = record s { assembler = (receive s bytes).rest } in
    ground (arith, handle_read-identity more s')
handle_read-identity closed_by_peer s = (refl, refl)
handle_read-identity would_block s = (refl, refl)
handle_read-identity failed s = (refl, refl)

module _ {Db : Type 0} (todo : List SessionCommand) where
  with_session-Safe :
      (fd : ℕ) (m : Manager Db) (use_it : ℕ → ClientSession → Option (Manager Db))
      → Inv todo m
      → ((a : ℕ) (s : ClientSession)
          → lookup fd m.sessions ≡ some a
          → lookup a m.server.heap ≡ some s
          → Safe todo (use_it a s))
      → Safe todo (with_session fd m use_it)
  with_session-Safe fd m use_it v h = elim (Option-cases (lookup fd m.sessions)) [
    | inl e ↦ rw (e, with_session) v
    | inr (a, e) ↦ let (s, es, fs) = v.entries fd a e in rw (e, with_session) (rw es (h a s e es))
  ]

  pub close_client-Safe :
      (fd : ℕ) (m : Manager Db)
      → Inv todo m
      → flights fd m.in_flight ≡ 0
      → Safe todo (close_client fd m)
  unfolding close_client
  close_client-Safe fd m v quiet =
      with_session-Safe fd m _ v (λ a s e es. delete_session-Inv todo m fd a s v e es quiet)

  pub pending-Inv :
      (m : Manager Db) (l : List ℕ) → Inv todo m → Inv todo (record m { pending_delete = l })
  pending-Inv m l v = record {
    owned = v.owned;
    entries = v.entries;
    served = v.served;
    counted = v.counted;
    running = v.running;
    keyed = v.keyed;
    held = v.held;
    idle = v.idle;
    fresh = v.fresh;
  }

  defer-Safe : (fd : ℕ) (m : Manager Db) → Inv todo m → Safe todo (defer fd m)
  unfolding defer close_session
  defer-Safe fd m v =
      let m' = record m { pending_delete = fd ∷ without fd m.pending_delete } in
      let v' = pending-Inv m (fd ∷ without fd m.pending_delete) v in
      with_session-Safe fd m' _ v'
        (λ a s e es. put_object-Inv todo m' a s (record s { closed = true }) v' es refl refl)

  close_or_defer-Safe : (fd : ℕ) (m : Manager Db) → Inv todo m → Safe todo (close_or_defer fd m)
  unfolding close_or_defer
  close_or_defer-Safe fd m v =
      if_rule (Safe todo) (ltb 0 (flights fd m.in_flight)) _ _ (λ some_left. defer-Safe fd m v)
        (λ none_left. close_client-Safe fd m v (ground arith))

  pub request_close_client-Safe :
      (fd : ℕ) (m : Manager Db) → Inv todo m → Safe todo (request_close_client fd m)
  unfolding request_close_client
  request_close_client-Safe fd m v = elim (Option-cases (lookup fd m.sessions)) [
    | inl e ↦ rw (e, request_close_client) v
    | inr (a, e) ↦
        rw (e, request_close_client) (unfold close_or_defer in close_or_defer-Safe fd m v)
  ]

  -- One more job, and one more task in flight.
  submit-Inv :
      (m : Manager Db) (job : Job)
      → Inv todo m
      → HasSession m.sessions job
      → Inv todo (
          submit job
            (record m { in_flight = insert job.fd (flights job.fd m.in_flight + 1) m.in_flight }))
  unfolding submit
  submit-Inv m job v here =
      let more = λ (k : ℕ). flights-insert job.fd k (flights job.fd m.in_flight + 1) m.in_flight in
      if_rule (Inv todo) m.stopping _ _ (λ stopped. absurd (let calm = v.running in cc))
        (λ _. record {
          owned = v.owned;
          entries = v.entries;
          served = All-append (HasSession m.sessions) m.jobs (job ∷ []) v.served (here, tt);
          counted = λ k. ground (arith, more k, count_jobs-append k m.jobs (job ∷ []), v.counted k);
          running = v.running;
          keyed = v.keyed;
          held = v.held;
          idle = λ k p. ground (arith, more k, v.idle k);
          fresh = v.fresh;
        })

  submit-sessions : (m : Manager Db) (job : Job) → (submit job m).sessions ≡ m.sessions
  unfolding submit
  submit-sessions m job = ground arith

  pub submit_all-Inv :
      (fd a : ℕ) (tasks : List Packet) (m : Manager Db)
      → Inv todo m
      → lookup fd m.sessions ≡ some a
      → Inv todo (submit_all fd a tasks m)
  unfolding submit_all
  submit_all-Inv fd a [] m v e = v
  submit_all-Inv fd a ((header, body) ∷ tasks) m v e =
      let job : Job = record { session = a; fd = fd; header = header; body = body } in
      submit_all-Inv fd a tasks _ (submit-Inv m job v e) (rw submit-sessions e)

  pub on_error-Safe : (fd : ℕ) (m : Manager Db) → Inv todo m → Safe todo (on_error fd m)
  unfolding on_error
  on_error-Safe fd m v = close_or_defer-Safe fd m v

  pub on_read-Safe :
      (fd : ℕ) (recv : Recv) (m : Manager Db) → Inv todo m → Safe todo (on_read fd recv m)
  unfolding on_read
  on_read-Safe fd recv m v = with_session-Safe fd m _ v λ a s e es.
      let s' : ClientSession = (handle_read recv s).1 in
      let keeps = handle_read-identity recv s in
      let m' : Manager Db = submit_all fd a (handle_read recv s).0 (put_object a s' m) in
      let v' : Inv todo m' =
        submit_all-Inv fd a (handle_read recv s).0 (put_object a s' m)
          (put_object-Inv todo m a s s' v es keeps.0 keeps.1) e in
      if_rule (Safe todo) s'.closed _ _ (λ shut. close_or_defer-Safe fd m' v') (λ open_still. v')

  -- The hypothesis excludes a closed session with tasks in flight.
  pub on_write-Safe :
      (result : ℕ → SendResult) (fd : ℕ) (m : Manager Db)
      → Inv todo m
      → ((a : ℕ) (s : ClientSession)
          → lookup fd m.sessions ≡ some a
          → lookup a m.server.heap ≡ some s
          → s.closed ≡ true
          → flights fd m.in_flight ≡ 0)
      → Safe todo (on_write result fd m)
  unfolding on_write handle_write
  on_write-Safe result fd m v finished = with_session-Safe fd m _ v λ a s e es.
      let s' : ClientSession = handle_write result s in
      let v' : Inv todo (put_object a s' m) = put_object-Inv todo m a s s' v es refl refl in
      if_rule (Safe todo) s.closed _ _
        (λ shut. close_client-Safe fd (put_object a s' m) v' (finished a s e es shut))
        (λ open_still. v')

  pub on_send_raw-Safe :
      (result : ℕ → SendResult) (fd : ℕ) (packet : Bytes) (m : Manager Db)
      → Inv todo m
      → Safe todo (on_send_raw result fd packet m)
  unfolding on_send_raw send_raw_direct
  on_send_raw-Safe result fd packet m v = with_session-Safe fd m _ v λ a s e es.
      if_rule (Inv todo) s.closed _ _ (λ shut. v)
        (λ open_still. put_object-Inv todo m a s (send_raw_direct result packet s) v es refl refl)
