-- ===== src/Tests/Journey.antt =====
-- Runs of a message, and of a request that is cut short.
use cvcn.Common.{
  true, Bool, ◌↔◌, List, none, ◌≡◌, refl, arith, [], ◌∷◌, some, take, ◌==◌, Bool-cases, inl, inr,
}
use cvcn.Common.Dict.{lookup}
use cvcn.Wire.Bytes.{Bytes, htons_bytes, append_bytes, write_string, write_uint16_be}
use cvcn.Wire.Packet
use cvcn.Wire.Packet.{PacketType, MessageSendData}
use cvcn.Wire.Builder.{body_of, type_of, write_credentials}
use cvcn.Wire.Parser.{parse_header}
use cvcn.Validator.{validate, validate_message, is_message_char, every}
use cvcn.Session.{ClientSession, new_session}
use cvcn.Server.{Server, pure}
use cvcn.Server.Dispatcher.{dispatch}
use cvcn.Server.Safety.{RegistryLive}
use cvcn.Server.Truncated.{dispatch-truncated}
use cvcn.Client.Controllers.{connected, Client, authenticated, online}
use cvcn.Client.Journey.{Arrives, message_send-Arrives}
use cvcn.Client.Reading.{IsModest, stream, read_chunks, hear_all, read_chunks-stream}
use cvcn.Client.Connection.Agreement.{raws}
use cvcn.Framing.Server.{extract_all, extract_loop, extract_packet, extract_body}
use cvcn.Client.Journey.Login.{LogsIn, slot_auth_requested-LogsIn}
use cvcn.Server.Services.{password_hash}
use cvcn.Server.Dispatcher.{bad_credentials}
use cvcn.Validator.{validate_username, validate_password, is_credential_char}
use cvcn.Tests.Net.{Users, repositories, alice, login_header}

-- A login without the last byte of the password.
dispatch-truncated_example :
    dispatch repositories login_header (take 5 (body_of (Packet.auth_request_data alice))) 2
    ≡ pure tt
unfolding body_of write_credentials write_string write_uint16_be append_bytes htons_bytes type_of
dispatch-truncated_example =
    dispatch-truncated repositories (Packet.auth_request_data alice) login_header 2 5
      (omega arith, omega arith) refl (omega arith)

-- Bob's message to chat 4.
abbrev hello : MessageSendData
hello = record { chat_id = 4; text = b'h' ∷ b'i' ∷ [] }

abbrev bob : ClientSession
bob = record (new_session 5) { user_id = some 7; username = b'b' ∷ [] }

abbrev bobs : Client
bobs = record {
  state = authenticated;
  username = b'b' ∷ [];
  pending_username = b'b' ∷ [];
  protocol = record { message_id = 3; session_id = 5 };
  socket = online;
  effects = [];
}

-- Users 7 and 8 are logged in.
abbrev both : Server Users
both = record {
  db = [];
  registry = (7, 1) ∷ (8, 2) ∷ [];
  heap = (1, bob) ∷ (2, record (new_session 6) { user_id = some 8 }) ∷ [];
  results = [];
}

both-live : RegistryLive both.registry both.heap
unfolding lookup
both-live u a e = elim (Bool-cases (1 == a)) [
  | inl one ↦ (bob, ground arith)
  | inr other ↦ (record (new_session 6) { user_id = some 8 }, ground arith)
]

message_send-Arrives_example : Arrives repositories hello bobs 1 both (b'b' ∷ []) 6 bobs (λ s. s)
unfolding lookup validate_message validate every is_message_char new_session
message_send-Arrives_example =
    message_send-Arrives repositories hello bobs bobs 1 7 both bob
      (record (new_session 6) { user_id = some 8 }) (7 ∷ []) [] 8 2 (λ s. s) refl (omega arith)
      (omega arith) (omega arith) (omega arith) refl both-live refl refl (omega arith) refl refl
      refl refl

-- A message for the client, cut in the middle of its header.
abbrev chunks : List Bytes
chunks =
    (0 ∷ 17 ∷ 0 ∷ 0 ∷ 0 ∷ [])
    ∷ (0 ∷ 0 ∷ 0 ∷ 0 ∷ 0 ∷ 0 ∷ 10 ∷ 0 ∷ 1 ∷ b'b' ∷ 0 ∷ 0 ∷ 0 ∷ 4 ∷ 0 ∷ 1 ∷ b'!' ∷ 0 ∷ [])
    ∷ []

modest : IsModest (extract_all (stream chunks))
unfolding extract_all extract_loop extract_packet extract_body parse_header
modest = (refl, refl)

read_chunks-stream_example : read_chunks (λ s. s) (λ names. none) chunks (bobs, []) ≡ (
  hear_all (λ s. s) (λ names. none) (raws (extract_all (stream chunks)).packets) bobs,
  (extract_all (stream chunks)).rest,
)
read_chunks-stream_example = read_chunks-stream (λ s. s) (λ names. none) chunks bobs modest

-- Alice asks for a login on session 2.
abbrev asking_client : Client
asking_client = record bobs { state = connected; username = [] }

slot_auth_requested-LogsIn_example :
    (success : Bool) × ((success ≡ true)
      ↔ (repositories.get_user_password_hash alice.username both.db ≡ password_hash alice.password))
    × LogsIn repositories alice asking_client 2 both
        (record (new_session 6) { user_id = some 8 })
        success
unfolding lookup bad_credentials validate_username validate_password validate every
    is_credential_char
slot_auth_requested-LogsIn_example =
    slot_auth_requested-LogsIn repositories alice asking_client 2 both
      (record (new_session 6) { user_id = some 8 }) refl refl (omega arith) (omega arith) refl refl
