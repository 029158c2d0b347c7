-- ===== src/Client/Controllers.antt =====
-- client/logic/: the controllers as one state with the connection they send on. The windows are
-- what they are told; `QInputDialog` is a parameter. The log has no model.
pub mod Login
pub mod Stuck
use cvcn.Common.{ℕ, Bool, true, false, not, List, [], ◌∷◌, ◌++◌, Option, none, some, if◌then◌else◌}
use cvcn.Wire.Bytes.{Bytes}
use cvcn.Wire.Packet.{ChatListEntry}
use cvcn.Validator.{validate_message}
use cvcn.Server.Dispatcher.{bad_credentials}
use cvcn.Client.Protocol

pub data AppState : Type 0 where
  disconnected connected authenticating authenticated : AppState

-- Whether the socket is connected, and whether it then takes a packet.
pub data Socket : Type 0 where
  offline online broken : Socket

pub data Topic : Type 0 where
  auth register delete message chat : Topic

-- What the socket and the windows get.
pub data Effect : Type 0 where
  sent : Bytes → Effect
  warning : Topic → Effect
  no_users_found chat_window_shown : Effect
  chat_added : ℕ → Bytes → Effect
  chat_list_set : List ChatListEntry → Effect
  own_message : Bytes → Bytes → Effect
  incoming_message : ℕ → Bytes → Bytes → Effect

-- `Session`, `pendingUsername_`, `ProtocolClient`, the socket, and the effects so far.
pub record Client : Type 0 where
  pub state : AppState
  pub username : Bytes
  pub pending_username : Bytes
  pub protocol : Protocol.ProtocolClient
  pub socket : Socket
  pub effects : List Effect

unfoldable pub tell : Effect → Client → Client
tell effect c = record c { effects = c.effects ++ effect ∷ [] }

-- client/utils/ErrorKind.h
pub data ErrorKind : Type 0 where
  transport_error protocol_error business_error : ErrorKind

-- `MainController::slotError`
abbrev pub slot_error : ErrorKind → Client → Client
slot_error transport_error c = record c { state = disconnected }
slot_error protocol_error c = c
slot_error business_error c = c

-- Passed on to `MainController`.
abbrev pub slot_transport_error : ErrorKind → Client → Client
slot_transport_error kind c = slot_error kind c

-- `Connection::send`, whose errors of kind Transport reach `MainController::slotError` at once. No
-- packet is empty.
unfoldable pub send_on : Socket → Bytes → Client → Client
send_on offline packet c = slot_transport_error transport_error c
send_on online packet c = tell (sent packet) c
send_on broken packet c = slot_transport_error transport_error c

unfoldable pub send : Bytes → Client → Client
send packet c = send_on c.socket packet c

-- A request of `ProtocolClient`.
abbrev pub request : (Protocol.ProtocolClient → Bytes × Protocol.ProtocolClient) → Client → Client
request ask c =
    let (packet, protocol) = ask c.protocol in send packet (record c { protocol = protocol })

-- `MainController::slotShowWarning` and `slotShowInformation`, which every controller's signal reaches.
abbrev pub slot_show_warning : Topic → Client → Client
slot_show_warning topic c = tell (warning topic) c

abbrev pub slot_show_information : Client → Client
slot_show_information c = tell no_users_found c

-- `Session` before anything has happened, and no connection yet.
abbrev pub new_client : Client
new_client = record {
  state = disconnected;
  username = [];
  pending_username = [];
  protocol = record { message_id = 0; session_id = 0 };
  socket = offline;
  effects = [];
}

abbrev pub is_authenticating : AppState → Bool
is_authenticating authenticating = true
is_authenticating _ = false

-- AuthController
unfoldable pub slot_auth_requested : Bytes → Bytes → Client → Client
slot_auth_requested username password c =
    if is_authenticating c.state
    then c
    else if bad_credentials (record { username = username; password = password })
    then slot_show_warning auth c
    else request (Protocol.send_auth_request username password)
        (record c { pending_username = username; state = authenticating })

unfoldable pub slot_reg_requested : Bytes → Bytes → Client → Client
slot_reg_requested username password c =
    if bad_credentials (record { username = username; password = password })
    then slot_show_warning register c
    else request (Protocol.send_reg_request username password) c

unfoldable pub slot_del_requested : Bytes → Bytes → Client → Client
slot_del_requested username password c =
    if bad_credentials (record { username = username; password = password })
    then slot_show_warning delete c
    else request (Protocol.send_delete_request username password) c

abbrev pub load_chat_list : Client → Client
load_chat_list c = request Protocol.send_chat_list_request c

-- MainController: shows the chat window and asks for the chat list.
abbrev pub slot_authentication_succeeded : Client → Client
slot_authentication_succeeded c = load_chat_list (tell chat_window_shown c)

unfoldable pub slot_auth_finished : Bool → Client → Client
slot_auth_finished success c =
    if success
    then slot_authentication_succeeded
        (record c { username = c.pending_username; state = authenticated })
    else record c { state = disconnected }

-- ChatController; `chosen` is the answer of the dialog, if it was accepted and not empty.
unfoldable pub slot_users_found : Option Bytes → List Bytes → Client → Client
slot_users_found chosen [] c = slot_show_information c
slot_users_found chosen (u ∷ us) c = elim chosen [
  | none ↦ c
  | some peer ↦ request (Protocol.send_create_chat_request peer) c
]

unfoldable pub slot_find_user_requested : Bytes → Client → Client
slot_find_user_requested query = request (Protocol.send_find_user_request query)

unfoldable pub slot_create_chat_requested : Bytes → Client → Client
slot_create_chat_requested peer = request (Protocol.send_create_chat_request peer)

unfoldable pub slot_chat_created : Bool → ℕ → Bytes → Client → Client
slot_chat_created success id peer c =
    if success then tell (chat_added id peer) c else slot_show_warning chat c

-- MessageController
unfoldable pub slot_message_send_requested : ℕ → Bytes → Client → Client
slot_message_send_requested id text c =
    if not (validate_message text)
    then slot_show_warning message c
    else request (Protocol.send_message id text) (tell (own_message c.username text) c)

abbrev pub slot_chat_list_received : List ChatListEntry → Client → Client
slot_chat_list_received chats c = tell (chat_list_set chats) c

abbrev pub slot_message_received : Bytes → ℕ → Bytes → Client → Client
slot_message_received who id text c = tell (incoming_message id who text) c

-- Only logged.
abbrev pub slot_registration_finished : Bool → Client → Client
slot_registration_finished success c = c

abbrev pub slot_delete_finished : Bool → Client → Client
slot_delete_finished success c = c

-- The slots that the constructors connect to the signals of `ProtocolClient`. The errors of kind
-- Protocol are logged.
unfoldable pub receive : Option Bytes → Protocol.Signal → Client → Client
receive chosen (Protocol.registration_finished ok) c = slot_registration_finished ok c
receive chosen (Protocol.delete_finished ok) c = slot_delete_finished ok c
receive chosen (Protocol.auth_finished ok id) c = slot_auth_finished ok c
receive chosen (Protocol.users_found names) c = slot_users_found chosen names c
receive chosen (Protocol.chat_created ok id peer) c = slot_chat_created ok id peer c
receive chosen (Protocol.chat_list_received chats) c = slot_chat_list_received chats c
receive chosen (Protocol.message_received who id text) c = slot_message_received who id text c
receive chosen (Protocol.bad_packet type) c = c
receive chosen (Protocol.unknown_packet_type type) c = c

-- MainController
unfoldable pub slot_connected : Client → Client
slot_connected c = record c { state = connected; socket = online }

unfoldable pub slot_disconnected : Client → Client
slot_disconnected c = record c { state = disconnected; socket = offline }

unfoldable pub slot_about_to_quit : Client → Client
slot_about_to_quit = request Protocol.send_disconnect_request
