-- ===== src/Manager/Racing.antt =====
-- server/services/MessageService.cpp against server/net/SessionManager.cpp: the broadcast of a message
-- in the parts between which other threads run, and the commands of a drained queue one by one, while
-- workers run. More is allowed than the code does: any job may broadcast any message, and nothing keeps
-- it from ending before its broadcast is over.
pub mod Safety
pub mod Dangling
use cvcn.Common.{
  ℕ, zero, suc, ◌≡◌, Bool, true, false, List, [], ◌∷◌, ◌++◌, Option, none, some, ◌==◌,
  if◌then◌else◌,
}
use cvcn.Common.Dict.{lookup}
use cvcn.Wire.Bytes.{Bytes}
use cvcn.Wire.Packet.{MessageSendData, message_receive_data}
use cvcn.Wire.Builder.{build_payload}
use cvcn.Sender.{SendResult}
use cvcn.Session.{ClientSession}
use cvcn.Server.{Server, Repositories, SessionCommand, task_done_command, send_raw}
use cvcn.Server.Registry.{find_by_user_id}
use cvcn.Manager.{Job, Manager, Event, empty_manager, pick, run_command, step, work}

-- A call of broadcastToChat: the members that the loop has not come to, the sender, the packet, and
-- `recipient` between findByUserID and sendRaw.
pub record Broadcast : Type 0 where
  pub members : List ℕ
  pub exclude : ℕ
  pub packet : Bytes
  pub recipient : Option ℕ

-- The session manager, the commands that the main thread has drained and not run yet, and the
-- broadcasts of the workers.
pub record Racing (Db : Type 0) : Type 0 where
  pub manager : Manager Db
  pub todo : List SessionCommand
  pub broadcasts : List Broadcast

-- `main` is a callback of the event loop, `takes` a drain, `runs` the next command of the drained
-- ones; `works` a whole job, `posts` the head of handleMessageSend in a job, `finds` and `pushes` the
-- two parts of a round of broadcastToChat, `ends` the report of a job that is done.
pub data RacingEvent : Type 0 where
  main : Event → RacingEvent
  takes runs : RacingEvent
  works ends : ℕ → RacingEvent
  posts : ℕ → MessageSendData → RacingEvent
  finds pushes : ℕ → RacingEvent

unfoldable pub nth : ℕ → List Broadcast → Option Broadcast
nth i [] = none
nth zero (b ∷ bs) = some b
nth (suc i) (b ∷ bs) = nth i bs

unfoldable pub put_nth : ℕ → Broadcast → List Broadcast → List Broadcast
put_nth i b [] = []
put_nth zero b (c ∷ bs) = b ∷ bs
put_nth (suc i) b (c ∷ bs) = c ∷ put_nth i b bs

abbrev pub set_server : {Db : Type 0} → Server Db → Racing Db → Racing Db
set_server st r = record r { manager = record r.manager { server = st } }

-- One round of the loop up to findByUserID: `continue` for the sender and for a user without session.
unfoldable pub find_recipient : {Db : Type 0} → Server Db → Broadcast → Broadcast
find_recipient st b = elim b.recipient [
  | some a ↦ b
  | none ↦ elim b.members [
    | [] ↦ b
    | u ∷ rest ↦
        if u == b.exclude
        then record b { members = rest }
        else record b { members = rest; recipient = find_by_user_id u st.registry }
  ]
]

module _ {Db : Type 0} (repo : Repositories Db) (result : ℕ → ℕ → SendResult) where
  -- `handleMessageSend` of the k-th job up to the loop over the members.
  unfoldable pub start_broadcast : ClientSession → MessageSendData → Racing Db → Racing Db
  start_broadcast s msg r = elim s.user_id [
    | none ↦ r
    | some sender ↦
        let st = r.manager.server in
        let db = (repo.save_message msg.chat_id sender msg.text st.db).1 in
        record (set_server (record st { db = db }) r) {
          broadcasts =
              r.broadcasts
              ++ record {
                members = repo.get_chat_member_ids msg.chat_id db;
                exclude = sender;
                packet = build_payload 0 0 (
                    message_receive_data (record {
                      sender_username = s.username;
                      chat_id = msg.chat_id;
                      text = msg.text;
                    }));
                recipient = none;
              }
                ∷ [];
        }
  ]

  unfoldable pub post_message : ℕ → MessageSendData → Racing Db → Option (Racing Db)
  post_message k msg r = elim (pick k r.manager.jobs) [
    | none ↦ some r
    | some (job, rest) ↦ elim (lookup job.session r.manager.server.heap) [
      | none ↦ none
      | some s ↦ some (if s.closed then r else start_broadcast s msg r)
    ]
  ]

  -- `recipient->sendRaw(packet)`
  unfoldable pub push_packet : ℕ → Broadcast → Racing Db → Option (Racing Db)
  push_packet i b r = elim b.recipient [
    | none ↦ some r
    | some a ↦ elim (send_raw a b.packet r.manager.server) [
      | none ↦ none
      | some (_, st) ↦ some (record (set_server st r) {
        broadcasts = put_nth i (record b { recipient = none }) r.broadcasts;
      })
    ]
  ]

  -- The job is off the list, and `TaskDone` in the queue.
  unfoldable pub end_job : ℕ → Racing Db → Racing Db
  end_job k r = elim (pick k r.manager.jobs) [
    | none ↦ r
    | some (job, rest) ↦
        let st = r.manager.server in
        record r {
          manager = record r.manager {
            server = record st { results = st.results ++ task_done_command job.fd ∷ [] };
            jobs = rest;
          };
        }
  ]

  unfoldable pub take_commands : Racing Db → Racing Db
  take_commands r = elim r.todo [
    | c ∷ cs ↦ r
    | [] ↦
        let st = r.manager.server in
        record (set_server (record st { results = [] }) r) { todo = st.results }
  ]

  -- Where a manager is left, the rest as it is.
  unfoldable pub with_manager :
      List SessionCommand → Racing Db → Option (Manager Db) → Option (Racing Db)
  with_manager todo r none = none
  with_manager todo r (some m) = some (record r { manager = m; todo = todo })

  -- The main thread goes back to epoll when it has run what it drained.
  unfoldable pub racing_step : RacingEvent → Racing Db → Option (Racing Db)
  racing_step (main e) r = elim r.todo [
    | c ∷ cs ↦ some r
    | [] ↦ with_manager [] r (step repo result e r.manager)
  ]
  racing_step takes r = some (take_commands r)
  racing_step runs r = elim r.todo [
    | [] ↦ some r
    | c ∷ cs ↦ with_manager cs r (run_command result c r.manager)
  ]
  racing_step (works k) r = with_manager r.todo r (work repo k r.manager)
  racing_step (ends k) r = some (end_job k r)
  racing_step (posts k msg) r = post_message k msg r
  racing_step (finds i) r = elim (nth i r.broadcasts) [
    | none ↦ some r
    | some b ↦
        some (record r { broadcasts = put_nth i (find_recipient r.manager.server b) r.broadcasts })
  ]
  racing_step (pushes i) r = elim (nth i r.broadcasts) [
    | none ↦ some r
    | some b ↦ push_packet i b r
  ]
