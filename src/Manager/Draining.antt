-- ===== src/Manager/Draining.antt =====
-- The closed sessions that wait for their tasks: SessionManager.cpp keeps each of them in
-- `pendingDelete_`, with a task in flight whose end will delete it.
pub mod Commands
pub mod Events
pub mod Jobs
use cvcn.Common.{
  ℕ, ◌+◌, ◌-◌, ◌<◌, ◌≡◌, ◌≢◌, refl, sym, ap, ◌∙◌, subst, arith, ◌⊎◌, inl, inr, Bool, true, false,
  List, [], ◌∷◌, Option, none, some, ltb, if_rule, ◌==◌, if◌then◌else◌, Bool-cases, Option-cases,
}
use cvcn.Common.Dict.{Dict, lookup, insert, erase, lookup-insert, lookup-erase}
use cvcn.Framing.Server.{Packet}
use cvcn.Sender.{SendResult}
use cvcn.Session.{ClientSession, Recv, close_session, handle_read, handle_write}
use cvcn.Server.{SessionCommand}
use cvcn.Manager.{
  Job, Manager, flights, put_object, submit, submit_all, delete_session, with_session, close_client,
  defer, close_or_defer, on_read, on_write, on_error, contains, without,
}
use cvcn.Manager.Invariant.{Inv, flights-insert}

-- A closed session that is not exempt waits for a task.
abbrev pub IsDraining : {Db : Type 0} → (ℕ → Type 0) → Manager Db → Type 0
IsDraining Exempt m =
    (fd a : ℕ) (s : ClientSession)
    → lookup fd m.sessions ≡ some a
    → lookup a m.server.heap ≡ some s
    → s.closed ≡ true
    → Exempt fd ⊎ ((contains fd m.pending_delete ≡ true) × (0 < flights fd m.in_flight))

-- No session, and one, may be exempt.
abbrev pub Nobody : ℕ → Type 0
Nobody k = ⊥

abbrev pub Only : ℕ → ℕ → Type 0
Only fd k = k ≡ fd

abbrev pub Drains : {Db : Type 0} → Option (Manager Db) → Type 0
Drains none = Unit {0}
Drains (some m) = IsDraining Nobody m

pub contains-without :
    (fd k : ℕ) (l : List ℕ) → contains k (without fd l) ≡ (if fd == k then false else contains k l)
unfolding contains without
contains-without fd k [] = ground arith
contains-without fd k (j ∷ js) = ground (arith, contains-without fd k js)

module _ {Db : Type 0} where
  pub exempt_one : (fd : ℕ) (m : Manager Db) → IsDraining Nobody m → IsDraining (Only fd) m
  exempt_one fd m h k a s p q shut = elim (h k a s p q shut) [
    | inl no_one ↦ absurd no_one
    | inr w ↦ inr w
  ]

  pub put_object-IsDraining :
      (Exempt : ℕ → Type 0) (todo : List SessionCommand) (m : Manager Db) (fd a : ℕ)
      (s s' : ClientSession)
      → Inv todo m
      → lookup fd m.sessions ≡ some a
      → lookup a m.server.heap ≡ some s
      → (s'.closed ≡ true → Exempt fd ⊎ (s.closed ≡ true))
      → IsDraining Exempt m
      → IsDraining Exempt (put_object a s' m)
  put_object-IsDraining Exempt todo m fd a s s' v e es closing h k b t p q shut =
      elim (Bool-cases (a == b)) [
        | inr other ↦ h k b t p (ground (arith, lookup-insert a b s' m.server.heap)) shut
        | inl same ↦
            let (s0, es0, f0) = v.entries fd a e in
            let (s1, es1, f1) = v.entries k b p in
            let one : t ≡ s' = ground (arith, lookup-insert a b s' m.server.heap) in
            let here : k ≡ fd = ground (arith, es0, es1, f0, f1) in
            elim (closing (sym (ap (λ (r : ClientSession). r.closed) one) ∙ shut)) [
              | inl exempt ↦ inl (subst Exempt (sym here) exempt)
              | inr before ↦
                  subst
                    (λ j.
                      Exempt j
                      ⊎ ((contains j m.pending_delete ≡ true) × (0 < flights j m.in_flight)))
                    (sym here) (h fd a s e es before)
            ]
      ]

  pub with_session-Drains :
      (fd : ℕ) (m : Manager Db) (use_it : ℕ → ClientSession → Option (Manager Db))
      → (lookup fd m.sessions ≡ none → IsDraining Nobody m)
      → ((a : ℕ) (s : ClientSession)
          → lookup fd m.sessions ≡ some a
          → lookup a m.server.heap ≡ some s
          → Drains (use_it a s))
      → Drains (with_session fd m use_it)
  with_session-Drains fd m use_it h k = elim (Option-cases (lookup fd m.sessions)) [
    | inl e ↦ rw (e, with_session) (h e)
    | inr (a, e) ↦ elim (Option-cases (lookup a m.server.heap)) [
      | inl gone ↦ rw (e, with_session) (rw gone tt)
      | inr (s, es) ↦ rw (e, with_session) (rw es (k a s e es))
    ]
  ]

  -- No session at the descriptor: the exemption is for nobody.
  pub exempt_none :
      (fd : ℕ) (m : Manager Db)
      → IsDraining (Only fd) m
      → lookup fd m.sessions ≡ none
      → IsDraining Nobody m
  exempt_none fd m h free k a s p q shut = elim (h k a s p q shut) [
    | inl here ↦ absurd (ground arith)
    | inr w ↦ inr w
  ]

  pub close_client-Drains :
      (fd : ℕ) (m : Manager Db) → IsDraining (Only fd) m → Drains (close_client fd m)
  unfolding close_client delete_session
  close_client-Drains fd m h =
      with_session-Drains fd m _ (exempt_none fd m h) λ a s e es k b t p q shut.
        elim (h k b t (ground (arith, lookup-erase fd k m.sessions))
          (ground (arith, lookup-erase a b m.server.heap)) shut) [
            | inl here ↦ absurd (ground (arith, lookup-erase fd k m.sessions))
            | inr (waits, flying) ↦
                inr (
                  waits,
                  ground (arith, lookup-erase fd k m.sessions, lookup-erase fd k m.in_flight),
                )
          ]

  -- The descriptor joins `pendingDelete_` with a task in flight.
  pub pended-IsDraining :
      (fd : ℕ) (m : Manager Db)
      → 0 < flights fd m.in_flight
      → IsDraining (Only fd) m
      → IsDraining Nobody (record m { pending_delete = fd ∷ without fd m.pending_delete })
  unfolding contains
  pended-IsDraining fd m flying h k a s p q shut = elim (h k a s p q shut) [
    | inl here ↦ inr (ground arith, ground arith)
    | inr (waits, flies) ↦ inr (ground (arith, contains-without fd k m.pending_delete), flies)
  ]
