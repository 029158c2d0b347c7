-- ===== src/Manager/Racing/Safety.antt =====
-- A worker that broadcasts uses a deleted session object only through a recipient that was deleted
-- since its look-up, and nobody else uses one.
use cvcn.Common.{
  some_inj, ℕ, ◌≡◌, refl, sym, ap, ◌∙◌, arith, subst, ◌⊎◌, inl, inr, List, [], ◌∷◌, ◌++◌, Option,
  none, some, if◌then◌else◌, Option-cases, if_rule,
}
use cvcn.Common.Dict.{lookup}
use cvcn.Wire.Packet.{MessageSendData}
use cvcn.Sender.{SendResult}
use cvcn.Session.{ClientSession}
use cvcn.Server.{Server, Repositories, SessionCommand, send_raw, send_raw_command, deref, ◌>>=◌}
use cvcn.Server.Safety.{Evolves, Evolves-refl, Evolves-push, send_raw_live}
use cvcn.Manager.{Manager, Event, worked, empty_manager, pick}
use cvcn.Manager.Invariant.{Inv}
use cvcn.Manager.Safety.Commands.{run_command-Safe, Safe-some}
use cvcn.Manager.Safety.Events.{Allowed, step-Inv, work-Inv, finished-Inv, drained-Inv, pick-served}
use cvcn.Manager.Racing.{
  Broadcast, Racing, RacingEvent, main, takes, runs, works, ends, posts, finds, pushes, nth,
  put_nth, set_server, find_recipient, start_broadcast, post_message, push_packet, end_job,
  take_commands, with_manager, racing_step,
}

-- The events that the theorems are about, as for the session manager alone.
abbrev pub IsAllowed : {Db : Type 0} → RacingEvent → Racing Db → Type 0
IsAllowed (main e) r = Allowed e r.manager
IsAllowed (works k) r = Allowed (worked k) r.manager
IsAllowed e r = Unit {0}

-- The event is the push of a broadcast to a recipient whose object is deleted.
abbrev pub IsDangling : {Db : Type 0} → RacingEvent → Racing Db → Type 0
IsDangling (pushes i) r =
    (b : Broadcast) × (a : ℕ) × (nth i r.broadcasts ≡ some b)
    × (b.recipient ≡ some a)
    × (lookup a r.manager.server.heap ≡ none)
IsDangling e r = ⊥

-- The invariant of the session manager, with the commands that are still to be run.
abbrev pub Holds : {Db : Type 0} → Racing Db → Type 0
Holds r = Inv r.todo r.manager

abbrev Steps : {Db : Type 0} → Option (Racing Db) → Type 0
Steps {Db} o = (r : Racing Db) × (o ≡ some r) × Holds r

-- The server has only got other contents of the database, or a packet more in the queue.
evolved-Inv :
    {Db : Type 0} (todo : List SessionCommand) (m : Manager Db) (st : Server Db)
    → Inv todo m
    → st.registry ≡ m.server.registry
    → st.heap ≡ m.server.heap
    → Evolves m.server st
    → Inv todo (record m { server = st })
evolved-Inv todo m st v same_registry same_heap grown = record {
  owned = rw (same_registry, same_heap) v.owned;
  entries = rw same_heap v.entries;
  served = v.served;
  counted = λ fd. ground (arith, v.counted fd, grown.dones fd);
  running = v.running;
  keyed = v.keyed;
  held = rw same_heap v.held;
  idle = v.idle;
  fresh = rw same_heap v.fresh;
}

module _ {Db : Type 0} (repo : Repositories Db) (result : ℕ → ℕ → SendResult) where
  manager-Steps :
      (todo : List SessionCommand) (r : Racing Db) (o : Option (Manager Db))
      → (m : Manager Db) × (o ≡ some m) × Inv todo m
      → Steps (with_manager repo result todo r o)
  unfolding with_manager
  manager-Steps todo r o (m, p, v) = (record r { manager = m; todo = todo }, rw p refl, v)

  start_broadcast-Holds :
      (s : ClientSession) (msg : MessageSendData) (r : Racing Db)
      → Holds r
      → Holds (start_broadcast repo result s msg r)
  unfolding start_broadcast
  start_broadcast-Holds s msg r v = elim (Option-cases s.user_id) [
    | inl nobody ↦ rw (nobody, start_broadcast) v
    | inr (sender, e) ↦
        rw (e, start_broadcast)
          (evolved-Inv r.todo r.manager _ v refl refl (record {
            objects = (Evolves-refl r.manager.server).objects;
            absent = λ b q. q;
            dones = λ fd. refl;
          }))
  ]

  post_message-Steps :
      (k : ℕ) (msg : MessageSendData) (r : Racing Db)
      → Holds r
      → Steps (post_message repo result k msg r)
  unfolding post_message
  post_message-Steps k msg r v = elim (Option-cases (pick k r.manager.jobs)) [
    | inl none_left ↦ (r, rw (none_left, post_message) refl, v)
    | inr ((job, rest), p) ↦
        let (here, others) = pick-served k r.manager.sessions r.manager.jobs job rest p v.served in
        let (s, es, fs) = v.entries job.fd job.session here in
        (
          (if s.closed then r else start_broadcast repo result s msg r),
          rw (p, post_message) (rw es refl),
          if_rule Holds s.closed _ _ (λ shut. v) (λ open_still. start_broadcast-Holds s msg r v),
        )
  ]

  push_packet-Steps :
      (i : ℕ) (b : Broadcast) (r : Racing Db)
      → Holds r
      → Steps (push_packet repo result i b r)
        ⊎ ((a : ℕ) × (b.recipient ≡ some a) × (lookup a r.manager.server.heap ≡ none))
  unfolding push_packet
  push_packet-Steps i b r v = elim (Option-cases b.recipient) [
    | inl nobody ↦ inl (r, rw (nobody, push_packet) refl, v)
    | inr (a, e) ↦ elim (Option-cases (lookup a r.manager.server.heap)) [
      | inl gone ↦ inr (a, e, gone)
      | inr (s, es) ↦
          let st = r.manager.server in
          let c = send_raw_command s.file_descriptor b.packet in
          let st' : Server Db = record st { results = st.results ++ c ∷ [] } in
          inl (
            record (set_server st' r) {
              broadcasts = put_nth i (record b { recipient = none }) r.broadcasts;
            },
            rw (e, push_packet) (rw (send_raw_live a b.packet st s es) refl),
            evolved-Inv r.todo r.manager st' v refl refl (Evolves-push st c (λ fd. refl)),
          )
    ]
  ]

  end_job-Holds : (k : ℕ) (r : Racing Db) → Holds r → Holds (end_job repo result k r)
  unfolding end_job
  end_job-Holds k r v = elim (Option-cases (pick k r.manager.jobs)) [
    | inl none_left ↦ rw (none_left, end_job) v
    | inr ((job, rest), p) ↦
        rw (p, end_job)
          (finished-Inv repo r.todo k r.manager job rest r.manager.server v p v.owned
            (Evolves-refl r.manager.server))
  ]

  take_commands-Holds :
      (r : Racing Db) (todo : List SessionCommand)
      → r.todo ≡ todo
      → Holds r
      → Holds (take_commands repo result r)
  unfolding take_commands
  take_commands-Holds r [] e v = rw e (drained-Inv r.manager (subst (λ t. Inv t r.manager) e v))
  take_commands-Holds r (c ∷ cs) e v = rw (e, take_commands) v

  main-Steps :
      (e : Event) (r : Racing Db) (todo : List SessionCommand)
      → r.todo ≡ todo
      → Holds r
      → Allowed e r.manager
      → Steps (racing_step repo result (main e) r)
  unfolding racing_step
  main-Steps e r [] idle v may =
      rw (idle, racing_step)
        (manager-Steps [] r _
          (step-Inv repo result e r.manager (subst (λ t. Inv t r.manager) idle v) may))
  main-Steps e r (c ∷ cs) busy v may = (
    record r { todo = c ∷ cs },
    rw (busy, racing_step) (ap (λ t. some (record r { todo = t })) busy),
    subst (λ t. Inv t r.manager) busy v,
  )

  runs-Steps :
      (r : Racing Db) (todo : List SessionCommand)
      → r.todo ≡ todo
      → Holds r
      → Steps (racing_step repo result runs r)
  unfolding racing_step
  runs-Steps r [] idle v = (
    record r { todo = [] },
    rw (idle, racing_step) (ap (λ t. some (record r { todo = t })) idle),
    subst (λ t. Inv t r.manager) idle v,
  )
  runs-Steps r (c ∷ cs) busy v =
      rw (busy, racing_step)
        (manager-Steps cs r _ (
          Safe-some cs _
            (run_command-Safe result c cs r.manager (subst (λ t. Inv t r.manager) busy v))))

  pushes-Steps :
      (i : ℕ) (r : Racing Db)
      → Holds r
      → Steps (racing_step repo result (pushes i) r) ⊎ IsDangling (pushes i) r
  unfolding racing_step
  pushes-Steps i r v = elim (Option-cases (nth i r.broadcasts)) [
    | inl none_left ↦ inl (r, rw (none_left, racing_step) refl, v)
    | inr (b, p) ↦ elim (push_packet-Steps i b r v) [
      | inl (r', q, v') ↦ inl (r', rw (p, racing_step) q, v')
      | inr (a, e, gone) ↦ inr (b, a, p, e, gone)
    ]
  ]

  finds-Steps : (i : ℕ) (r : Racing Db) → Holds r → Steps (racing_step repo result (finds i) r)
  unfolding racing_step
  finds-Steps i r v = elim (Option-cases (nth i r.broadcasts)) [
    | inl none_left ↦ (r, rw (none_left, racing_step) refl, v)
    | inr (b, p) ↦ (
      record r { broadcasts = put_nth i (find_recipient r.manager.server b) r.broadcasts },
      rw (p, racing_step) refl,
      v,
    )
  ]

  pub racing_step-Inv :
      (e : RacingEvent) (r : Racing Db)
      → Inv r.todo r.manager
      → IsAllowed e r
      → ((r' : Racing Db) × (racing_step repo result e r ≡ some r') × Inv r'.todo r'.manager)
        ⊎ IsDangling e r
  unfolding racing_step
  racing_step-Inv (main e) r v may = inl (main-Steps e r r.todo refl v may)
  racing_step-Inv takes r v may =
      inl (take_commands repo result r, refl, take_commands-Holds r r.todo refl v)
  racing_step-Inv runs r v may = inl (runs-Steps r r.todo refl v)
  racing_step-Inv (works k) r v may =
      inl (manager-Steps r.todo r _ (work-Inv repo r.todo k r.manager v may))
  racing_step-Inv (ends k) r v may = inl (end_job repo result k r, refl, end_job-Holds k r v)
  racing_step-Inv (posts k msg) r v may = inl (post_message-Steps k msg r v)
  racing_step-Inv (finds i) r v may = inl (finds-Steps i r v)
  racing_step-Inv (pushes i) r v may = pushes-Steps i r v

  -- The states that a server reaches by allowed events.
  pub data Races (r : Racing Db) : Racing Db → Type 0 where
    rests : Races r r
    goes :
        {n n' : Racing Db}
        → Races r n
        → (e : RacingEvent) → IsAllowed e n
        → racing_step repo result e n ≡ some n'
        → Races r n'

  abbrev pub no_connection : Db → Racing Db
  no_connection db = record { manager = empty_manager db; todo = []; broadcasts = [] }

  dangling-faults :
      (e : RacingEvent) (r : Racing Db) → IsDangling e r → racing_step repo result e r ≡ none
  unfolding racing_step push_packet send_raw deref ◌>>=◌
  dangling-faults (pushes i) r (b, a, p, q, gone) =
      rw (p, racing_step) (rw (q, push_packet) (rw gone refl))
  dangling-faults _ r d = absurd d

  -- A step that has a result is not the push to a deleted recipient.
  stepped-Inv :
      (e : RacingEvent) (r r' : Racing Db)
      → Inv r.todo r.manager
      → IsAllowed e r
      → racing_step repo result e r ≡ some r'
      → Inv r'.todo r'.manager
  stepped-Inv e r r' v may p = elim (racing_step-Inv e r v may) [
    | inl (r1, q, v1) ↦ subst Holds (some_inj (sym q ∙ p)) v1
    | inr dangling ↦ absurd (let fault = dangling-faults e r dangling in cc)
  ]

  pub Races-Inv : {r n : Racing Db} → Holds r → Races r n → Holds n
  Races-Inv v rests = v
  Races-Inv v (goes {n} {n'} h e may p) = stepped-Inv e n n' (Races-Inv v h) may p
