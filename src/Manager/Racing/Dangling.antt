-- ===== src/Manager/Racing/Dangling.antt =====
-- What the two parts of a round of broadcastToChat (server/services/MessageService.cpp) do together, and what
-- they do when the main thread deletes the recipient in between.
use cvcn.Common.{
  ℕ, zero, suc, ◌≡◌, refl, arith, false, List, [], ◌∷◌, none, some, ltb, ◌==◌, if_rule,
}
use cvcn.Common.Dict.{lookup}
use cvcn.Wire.Bytes.{Bytes}
use cvcn.Sender.{SendResult}
use cvcn.Session.{ClientSession}
use cvcn.Server.{Server, Repositories, send_raw, deref, ◌>>=◌}
use cvcn.Server.Registry.{find_by_user_id}
use cvcn.Manager.{Manager, broken, step, on_error, close_or_defer, flights, delete_session}
use cvcn.Manager.Hazards.{close_client-entry, lookup-gone}
use cvcn.Manager.Racing.{
  Broadcast, Racing, main, finds, pushes, nth, put_nth, find_recipient, push_packet, with_manager,
  racing_step,
}

nth-put_nth :
    (i : ℕ) (b c : Broadcast) (bs : List Broadcast)
    → nth i bs ≡ some c
    → nth i (put_nth i b bs) ≡ some b
unfolding nth put_nth
nth-put_nth i b c [] e = absurd (cc)
nth-put_nth zero b c (x ∷ bs) e = refl
nth-put_nth (suc i) b c (x ∷ bs) e = nth-put_nth i b c bs e

-- A broadcast that comes to the member `u`.
abbrev pub next_member : ℕ → List ℕ → ℕ → Bytes → Broadcast
next_member u rest exclude packet = record {
  members = u ∷ rest;
  exclude = exclude;
  packet = packet;
  recipient = none;
}

module _ {Db : Type 0} (repo : Repositories Db) (result : ℕ → ℕ → SendResult) where
  -- When a connection with no task in flight breaks between the look-up of its session as a recipient
  -- of a broadcast and the push of the packet, the main thread deletes the session object, and the
  -- worker uses the deleted object.
  pub broadcast-dangles :
      (i fd a u exclude : ℕ) (rest : List ℕ) (packet : Bytes) (r : Racing Db) (s : ClientSession)
      → r.todo ≡ []
      → nth i r.broadcasts ≡ some (next_member u rest exclude packet)
      → (u == exclude) ≡ false
      → find_by_user_id u r.manager.server.registry ≡ some a
      → lookup fd r.manager.sessions ≡ some a
      → lookup a r.manager.server.heap ≡ some s
      → flights fd r.manager.in_flight ≡ 0
      → (r1 : Racing Db) × (r2 : Racing Db) × (racing_step repo result (finds i) r ≡ some r1)
        × (racing_step repo result (main (broken fd)) r1 ≡ some r2)
        × (racing_step repo result (pushes i) r2 ≡ none)
  unfolding racing_step find_recipient push_packet with_manager step on_error close_or_defer
      delete_session send_raw deref ◌>>=◌
  broadcast-dangles i fd a u exclude rest packet r s idle p other found e es quiet =
      let b : Broadcast = next_member u rest exclude packet in
      let b1 : Broadcast = record b { members = rest; recipient = some a } in
      let m1 : Manager Db = delete_session fd a s r.manager in
      let bs : List Broadcast = put_nth i b1 r.broadcasts in
      let r1 : Racing Db = record r { todo = []; broadcasts = bs } in
      let closes : step repo result (broken fd) r.manager ≡ some m1 =
        if_rule (λ o. o ≡ some m1) (ltb 0 (flights fd r.manager.in_flight)) _ _
          (λ busy. absurd (ground arith)) (λ _. close_client-entry fd a r.manager s e es) in
      (
        r1,
        record r1 { manager = m1; todo = [] },
        rw (p, racing_step) (rw (other, found) (rw idle refl)),
        rw (closes, with_manager) refl,
        rw (nth-put_nth i b1 b r.broadcasts p, racing_step)
            (rw (lookup-gone a r.manager.server.heap, push_packet) refl),
      )

  abbrev pub FindsPushes : ℕ → Broadcast → Racing Db → Server Db → Type 0
  FindsPushes i free r st =
      (r1 : Racing Db) × (r2 : Racing Db) × (racing_step repo result (finds i) r ≡ some r1)
      × (racing_step repo result (pushes i) r1 ≡ some r2)
      × (r2.manager ≡ record r.manager { server = st })
      × (nth i r2.broadcasts ≡ some free)
