-- ===== src/Manager/Draining/Commands.antt =====
-- The calls of the main thread keep every closed session waiting for a task.
use cvcn.Common.{
  ℕ, ◌+◌, ◌-◌, ◌<◌, ◌≡◌, refl, arith, inl, inr, true, false, List, [], ◌∷◌, some, ltb, if_rule,
  ◌==◌, Bool-cases, Option-cases,
}
use cvcn.Common.Dict.{lookup, insert, lookup-insert}
use cvcn.Wire.Bytes.{Bytes}
use cvcn.Framing.Server.{Packet}
use cvcn.Sender.{SendResult}
use cvcn.Session.{
  ClientSession, Recv, new_session, close_session, handle_read, handle_write, send_raw_direct,
}
use cvcn.Server.{SessionCommand, send_raw_command, close_command, task_done_command}
use cvcn.Manager.{
  Job, Manager, flights, put_object, on_new_connection, submit, submit_all, defer, close_or_defer,
  on_read, on_write, on_error, request_close_client, on_task_done, on_send_raw, run_command,
  contains, without,
}
use cvcn.Manager.Invariant.{Inv, flights-insert, put_object-Inv}
use cvcn.Manager.Safety.{pending-Inv, submit_all-Inv, handle_read-identity}
use cvcn.Manager.Draining.{
  IsDraining, Nobody, Only, Drains, contains-without, exempt_one, put_object-IsDraining,
  with_session-Drains, close_client-Drains, pended-IsDraining,
}

module _ {Db : Type 0} (todo : List SessionCommand) where
  defer-Drains :
      (fd : ℕ) (m : Manager Db)
      → Inv todo m
      → 0 < flights fd m.in_flight
      → IsDraining (Only fd) m
      → Drains (defer fd m)
  unfolding defer close_session
  defer-Drains fd m v flying h =
      let m' : Manager Db = record m { pending_delete = fd ∷ without fd m.pending_delete } in
      let v' : Inv todo m' = pending-Inv todo m (fd ∷ without fd m.pending_delete) v in
      let h' : IsDraining Nobody m' = pended-IsDraining fd m flying h in
      with_session-Drains fd m' _ (λ free. h')
        λ a s e es. λ k b t p q shut.
          elim (put_object-IsDraining (Only fd) todo m' fd a s (record s { closed = true }) v' e es
            (λ closed. inl refl) (exempt_one fd m' h') k b t p q shut) [
              | inl here ↦ inr (unfold contains in ground arith, ground arith)
              | inr w ↦ inr w
            ]

  close_or_defer-Drains :
      (fd : ℕ) (m : Manager Db) → Inv todo m → IsDraining (Only fd) m → Drains (close_or_defer fd m)
  unfolding close_or_defer
  close_or_defer-Drains fd m v h =
      if_rule Drains (ltb 0 (flights fd m.in_flight)) _ _
        (λ some_left. defer-Drains fd m v (ground arith) h)
        (λ none_left. close_client-Drains fd m h)

  flight-IsDraining :
      (Exempt : ℕ → Type 0) (fd : ℕ) (m : Manager Db)
      → IsDraining Exempt m
      → IsDraining Exempt
          (record m { in_flight = insert fd (flights fd m.in_flight + 1) m.in_flight })
  flight-IsDraining Exempt fd m h k a s p q shut = elim (h k a s p q shut) [
    | inl exempt ↦ inl exempt
    | inr (waits, flies) ↦
        inr (waits, ground (arith, flights-insert fd k (flights fd m.in_flight + 1) m.in_flight))
  ]

  submit-IsDraining :
      (Exempt : ℕ → Type 0) (job : Job) (m : Manager Db)
      → IsDraining Exempt m
      → IsDraining Exempt (submit job m)
  unfolding submit
  submit-IsDraining Exempt job m h = if_rule (IsDraining Exempt) m.stopping _ _ (λ e. h) (λ e. h)

  submit_all-IsDraining :
      (Exempt : ℕ → Type 0) (fd a : ℕ) (tasks : List Packet) (m : Manager Db)
      → IsDraining Exempt m
      → IsDraining Exempt (submit_all fd a tasks m)
  unfolding submit_all
  submit_all-IsDraining Exempt fd a [] m h = h
  submit_all-IsDraining Exempt fd a ((header, body) ∷ tasks) m h =
      submit_all-IsDraining Exempt fd a tasks _
        (submit-IsDraining Exempt _ _ (flight-IsDraining Exempt fd m h))

  pub on_error-Drains :
      (fd : ℕ) (m : Manager Db) → Inv todo m → IsDraining Nobody m → Drains (on_error fd m)
  unfolding on_error
  on_error-Drains fd m v h = close_or_defer-Drains fd m v (exempt_one fd m h)

  pub request_close_client-Drains :
      (fd : ℕ) (m : Manager Db)
      → Inv todo m
      → IsDraining Nobody m
      → Drains (request_close_client fd m)
  unfolding request_close_client
  request_close_client-Drains fd m v h = elim (Option-cases (lookup fd m.sessions)) [
    | inl e ↦ rw (e, request_close_client) h
    | inr (a, e) ↦
        rw (e, request_close_client)
          (unfold close_or_defer in close_or_defer-Drains fd m v (exempt_one fd m h))
  ]

  pub on_read-Drains :
      (fd : ℕ) (recv : Recv) (m : Manager Db)
      → Inv todo m
      → IsDraining Nobody m
      → Drains (on_read fd recv m)
  unfolding on_read
  on_read-Drains fd recv m v h =
      with_session-Drains fd m _ (λ free. h)
        λ a s e es.
          let (tasks, s') = handle_read recv s in
          let keeps = handle_read-identity recv s in
          let m1 : Manager Db = put_object a s' m in
          let v1 : Inv todo m1 = put_object-Inv todo m a s s' v es keeps.0 keeps.1 in
          if_rule Drains s'.closed _ _
            (λ shut.
              close_or_defer-Drains fd (submit_all fd a tasks m1)
                (submit_all-Inv todo fd a tasks m1 v1 e)
                (submit_all-IsDraining (Only fd) fd a tasks m1 (
                  put_object-IsDraining (Only fd) todo m fd a s s' v e es (λ closed. inl refl)
                    (exempt_one fd m h))))
            (λ open_still.
              submit_all-IsDraining Nobody fd a tasks m1
                (put_object-IsDraining Nobody todo m fd a s s' v e es (λ closed. absurd (cc)) h))

  pub on_write-Drains :
      (result : ℕ → SendResult) (fd : ℕ) (m : Manager Db)
      → Inv todo m
      → IsDraining Nobody m
      → Drains (on_write result fd m)
  unfolding on_write handle_write
  on_write-Drains result fd m v h =
      with_session-Drains fd m _ (λ free. h)
        λ a s e es.
          let s' : ClientSession = handle_write result s in
          let h' : IsDraining Nobody (put_object a s' m) =
            put_object-IsDraining Nobody todo m fd a s s' v e es (λ shut. inr shut) h in
          if_rule Drains s.closed _ _
            (λ shut.
              close_client-Drains fd (put_object a s' m) (exempt_one fd (put_object a s' m) h'))
            (λ open_still. h')

  pub on_send_raw-Drains :
      (result : ℕ → SendResult) (fd : ℕ) (packet : Bytes) (m : Manager Db)
      → Inv todo m
      → IsDraining Nobody m
      → Drains (on_send_raw result fd packet m)
  unfolding on_send_raw send_raw_direct
  on_send_raw-Drains result fd packet m v h =
      with_session-Drains fd m _ (λ free. h)
        λ a s e es.
          if_rule (IsDraining Nobody) s.closed _ _ (λ shut. h)
            (λ open_still.
              put_object-IsDraining Nobody todo m fd a s (send_raw_direct result packet s) v e es
                (λ shut. inr shut) h)

-- One task less in flight: its session may have no other.
module _ {Db : Type 0} (fd n : ℕ) (m : Manager Db) (e : lookup fd m.in_flight ≡ some n)
    (h : IsDraining Nobody m) where
  landed_more :
      ltb 1 n ≡ true → IsDraining Nobody (record m { in_flight = insert fd (n - 1) m.in_flight })
  landed_more more k a s p q shut = elim (h k a s p q shut) [
    | inl no_one ↦ absurd no_one
    | inr (waits, flies) ↦ inr (waits, ground (arith, flights-insert fd k (n - 1) m.in_flight))
  ]

  landed_last : IsDraining (Only fd) (record m {
    in_flight = insert fd (n - 1) m.in_flight;
    pending_delete = without fd m.pending_delete;
  })
  landed_last k a s p q shut = elim (h k a s p q shut) [
    | inl no_one ↦ absurd no_one
    | inr (waits, flies) ↦ elim (Bool-cases (fd == k)) [
      | inl same ↦ inl (ground arith)
      | inr other ↦ inr (
        ground (arith, contains-without fd k m.pending_delete),
        ground (arith, flights-insert fd k (n - 1) m.in_flight),
      )
    ]
  ]

  landed_open :
      contains fd m.pending_delete ≡ false
      → IsDraining Nobody (record m { in_flight = insert fd (n - 1) m.in_flight })
  landed_open stays k a s p q shut = elim (h k a s p q shut) [
    | inl no_one ↦ absurd no_one
    | inr (waits, flies) ↦ elim (Bool-cases (fd == k)) [
      | inl same ↦ absurd (ground arith)
      | inr other ↦ inr (waits, ground (arith, flights-insert fd k (n - 1) m.in_flight))
    ]
  ]

module _ {Db : Type 0} where
  on_task_done-Drains : (fd : ℕ) (m : Manager Db) → IsDraining Nobody m → Drains (on_task_done fd m)
  unfolding on_task_done
  on_task_done-Drains fd m h = elim (Option-cases (lookup fd m.in_flight)) [
    | inl e ↦ rw (e, on_task_done) h
    | inr (n, e) ↦
        rw (e, on_task_done)
          (if_rule Drains (ltb 1 n) _ _ (λ more. landed_more fd n m e h more)
            λ last.
              if_rule Drains (contains fd m.pending_delete) _ _
                (λ waits. close_client-Drains fd _ (landed_last fd n m e h))
                (λ stays. landed_open fd n m e h stays))
  ]

  pub run_command-Drains :
      (result : ℕ → ℕ → SendResult) (c : SessionCommand) (cs : List SessionCommand) (m : Manager Db)
      → Inv (c ∷ cs) m
      → IsDraining Nobody m
      → Drains (run_command result c m)
  unfolding run_command
  run_command-Drains result (send_raw_command fd packet) cs m v h =
      on_send_raw-Drains _ (result fd) fd packet m v h
  run_command-Drains result (close_command fd) cs m v h = request_close_client-Drains _ fd m v h
  run_command-Drains result (task_done_command fd) cs m v h = on_task_done-Drains fd m h

  pub on_new_connection-IsDraining :
      (fd : ℕ) (m : Manager Db)
      → Inv [] m
      → IsDraining Nobody m
      → IsDraining Nobody (on_new_connection fd m)
  unfolding on_new_connection new_session
  on_new_connection-IsDraining fd m v h k b t p q shut = elim (Bool-cases (fd == k)) [
    | inl same ↦ absurd (
        ground (
          arith,
          lookup-insert fd k m.next_address m.sessions,
          lookup-insert m.next_address b (new_session fd) m.server.heap,
        ))
    | inr other ↦
        let p' : lookup k m.sessions ≡ some b =
          ground (arith, lookup-insert fd k m.next_address m.sessions) in
        let (t0, et0, f0) = v.entries k b p' in
        let empty = v.fresh m.next_address (omega arith) in
        let et : lookup b m.server.heap ≡ some t =
          ground (arith, lookup-insert m.next_address b (new_session fd) m.server.heap) in
        elim (h k b t p' et shut) [
          | inl no_one ↦ absurd no_one
          | inr (waits, flies) ↦ inr (waits, ground (arith, flights-insert fd k 0 m.in_flight))
        ]
  ]
