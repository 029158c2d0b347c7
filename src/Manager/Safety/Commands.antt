-- ===== src/Manager/Safety/Commands.antt =====
-- The commands of the result queue, and new connections.
use cvcn.Common.{
  ℕ, ◌-◌, ◌≡◌, refl, arith, inl, inr, List, [], ◌∷◌, Option, none, some, All, ltb, if_rule, ◌==◌,
  Bool-cases, Option-cases,
}
use cvcn.Common.Dict.{lookup, insert, lookup-insert, insert-IsKeyed}
use cvcn.Sender.{SendResult}
use cvcn.Session.{new_session}
use cvcn.Server.{SessionCommand, send_raw_command, close_command, task_done_command}
use cvcn.Server.Safety.{done_for}
use cvcn.Manager.{Job, Manager, on_new_connection, on_task_done, contains, without, run_command}
use cvcn.Manager.Invariant.{Inv, HasSession, flights-insert}
use cvcn.Manager.Safety.{
  Safe, close_client-Safe, pending-Inv, request_close_client-Safe, on_send_raw-Safe,
}

-- A command that reports no task is taken off the list of those to be run.
weaken-Inv :
    {Db : Type 0} (c : SessionCommand) (cs : List SessionCommand) (m : Manager Db)
    → ((k : ℕ) → done_for k c ≡ 0)
    → Inv (c ∷ cs) m
    → Inv cs m
weaken-Inv c cs m quiet v = record {
  owned = v.owned;
  entries = v.entries;
  served = v.served;
  counted = λ k. omega (arith, v.counted k, quiet k);
  running = v.running;
  keyed = v.keyed;
  held = v.held;
  idle = v.idle;
  fresh = v.fresh;
}

module _ {Db : Type 0} (cs : List SessionCommand) (fd : ℕ) where
  -- One task less in flight.
  landed-Inv :
      (m : Manager Db) (n : ℕ)
      → Inv (task_done_command fd ∷ cs) m
      → lookup fd m.in_flight ≡ some n
      → Inv cs (record m { in_flight = insert fd (n - 1) m.in_flight })
  landed-Inv m n v e = record {
    owned = v.owned;
    entries = v.entries;
    served = v.served;
    counted = λ k. ground (arith, flights-insert fd k (n - 1) m.in_flight, v.counted k);
    running = v.running;
    keyed = v.keyed;
    held = v.held;
    idle = λ k p. ground (arith, flights-insert fd k (n - 1) m.in_flight, v.idle k);
    fresh = v.fresh;
  }

  on_task_done-Safe :
      (m : Manager Db) → Inv (task_done_command fd ∷ cs) m → Safe cs (on_task_done fd m)
  unfolding on_task_done
  on_task_done-Safe m v = elim (Option-cases (lookup fd m.in_flight)) [
    | inl e ↦ absurd (ground (arith, v.counted fd))
    | inr (n, e) ↦
        let m' = record m { in_flight = insert fd (n - 1) m.in_flight } in
        let v' : Inv cs m' = landed-Inv m n v e in
        let l : List ℕ = without fd m.pending_delete in
        rw (e, on_task_done)
          (if_rule (Safe cs) (ltb 1 n) _ _ (λ more. v')
            λ last.
              if_rule (Safe cs) (contains fd m.pending_delete) _ _
                (λ waits.
                  close_client-Safe cs fd (record m' { pending_delete = l })
                    (pending-Inv cs m' l v')
                    (ground (arith, flights-insert fd fd (n - 1) m.in_flight)))
                (λ stays. v'))
  ]

pub run_command-Safe :
    {Db : Type 0} (result : ℕ → ℕ → SendResult) (c : SessionCommand) (cs : List SessionCommand)
    (m : Manager Db)
    → Inv (c ∷ cs) m
    → Safe cs (run_command result c m)
unfolding run_command
run_command-Safe result (send_raw_command fd packet) cs m v =
    on_send_raw-Safe cs (result fd) fd packet m (weaken-Inv _ cs m (λ k. refl) v)
run_command-Safe result (close_command fd) cs m v =
    request_close_client-Safe cs fd m (weaken-Inv _ cs m (λ k. refl) v)
run_command-Safe result (task_done_command fd) cs m v = on_task_done-Safe cs fd m v

pub Safe-some :
    {Db : Type 0} (todo : List SessionCommand) (r : Option (Manager Db))
    → Safe todo r
    → (m : Manager Db) × (r ≡ some m) × Inv todo m
Safe-some todo none h = absurd h
Safe-some todo (some m) h = (m, refl, h)

-- A new session for a descriptor that has none.
module _ {Db : Type 0} (fd : ℕ) (m : Manager Db) where
  opened-served :
      (jobs : List Job) (a : ℕ)
      → lookup fd m.sessions ≡ none
      → All (HasSession m.sessions) jobs
      → All (HasSession (insert fd a m.sessions)) jobs
  opened-served [] a free h = tt
  opened-served (j ∷ js) a free (h, hs) =
      (ground (arith, lookup-insert fd j.fd a m.sessions), opened-served js a free hs)

  pub on_new_connection-Inv :
      Inv [] m → lookup fd m.sessions ≡ none → Inv [] (on_new_connection fd m)
  unfolding on_new_connection new_session
  on_new_connection-Inv v free =
      let a = m.next_address in
      let empty : lookup a m.server.heap ≡ none = v.fresh a (omega arith) in
      record {
        owned = λ u b p.
            let (t, et, ut) = v.owned u b p in
            (t, ground (arith, lookup-insert a b (new_session fd) m.server.heap), ut);
        entries = λ k b p. elim (Bool-cases (fd == k)) [
          | inl same ↦ (
            new_session fd,
            ground (
              arith,
              lookup-insert fd k a m.sessions,
              lookup-insert a b (new_session fd) m.server.heap,
            ),
            ground arith,
          )
          | inr other ↦
              let q : lookup k m.sessions ≡ some b =
                ground (arith, lookup-insert fd k a m.sessions) in
              let (t, et, ft) = v.entries k b q in
              (t, ground (arith, lookup-insert a b (new_session fd) m.server.heap), ft)
        ];
        served = opened-served m.jobs a free v.served;
        counted = λ k. ground (arith, flights-insert fd k 0 m.in_flight, v.counted k, v.idle fd);
        running = v.running;
        keyed = insert-IsKeyed fd a m.sessions v.keyed;
        held = λ b t p. elim (Bool-cases (a == b)) [
          | inl same ↦ ground (
            arith,
            lookup-insert a b (new_session fd) m.server.heap,
            lookup-insert fd fd a m.sessions,
          )
          | inr other ↦ ground (
            arith,
            lookup-insert a b (new_session fd) m.server.heap,
            lookup-insert fd t.file_descriptor a m.sessions,
            v.held b t,
          )
        ];
        idle = λ k p.
            ground
              (arith, flights-insert fd k 0 m.in_flight, lookup-insert fd k a m.sessions, v.idle k);
        fresh = λ b le. ground (arith, lookup-insert a b (new_session fd) m.server.heap, v.fresh b);
      }
