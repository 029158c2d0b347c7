-- ===== src/Tests/Client.antt =====
-- Runs of the client, and of what a login and a message do.
use cvcn.Common.{◌≡◌, refl, arith, true, false, [], ◌∷◌, ◌++◌, some, length}
use cvcn.Common.Dict.{lookup}
use cvcn.Wire.Bytes.{Bytes, write_uint8, append_bytes}
use cvcn.Validator.{validate_username, validate_password, validate, every, is_credential_char}
use cvcn.Wire.Packet
use cvcn.Wire.Packet.{PacketHeaderRaw, Credentials, Payload, MessageSendData}
use cvcn.Wire.Builder.{body_of, type_of, build_payload, write_success}
use cvcn.Framing.Server.{extract_all}
use cvcn.Session.{ClientSession, new_session}
use cvcn.Server.Dispatcher.{dispatch, bad_credentials}
use cvcn.Server.Services.{handle_auth_request, handle_message_send}
use cvcn.Server.Outcomes.{deliveries, handle_message_send-deliveries}
use cvcn.Client.Connection.{raw_packet_received, slot_ready_read}
use cvcn.Client.Connection.Agreement.{Agrees, slot_ready_read-Agrees}
use cvcn.Client.Protocol.{ProtocolClient, auth_finished, send_payload, process_incoming_packet}
use cvcn.Client.Protocol.Delivery.{send_payload-served, build_payload-understood}
use cvcn.Tests.Net.{repositories, alice, login_bytes, logged_in, logged_in-IsSound}

abbrev client : ProtocolClient
client = record { message_id = 3; session_id = 0 }

-- A packet whose header announces 6000 bytes.
abbrev oversized : Bytes
oversized = 0 ∷ 17 ∷ 0 ∷ 0 ∷ 0 ∷ 0 ∷ 0 ∷ 0 ∷ 0 ∷ 0 ∷ 23 ∷ 112 ∷ []

slot_ready_read-Agrees_example :
    Agrees (extract_all (login_bytes ++ oversized)) (slot_ready_read oversized login_bytes)
slot_ready_read-Agrees_example = slot_ready_read-Agrees oversized login_bytes

abbrev welcome : Payload
welcome = Packet.auth_response_data true

abbrev login : Payload
login = Packet.auth_request_data alice

send_payload-served_example :
    (extract_all (send_payload login client).0 ≡ record {
      packets =
          (
            record {
              type = 5;
              message_id = 3;
              session_id = 0;
              message_len = length (body_of login);
            },
            body_of login,
          )
          ∷ [];
      rest = [];
      too_large = false;
    })
    × (dispatch repositories
          (record {
            type = 5;
            message_id = 3;
            session_id = 0;
            message_len = length (body_of login);
          })
          (body_of login)
          2
        ≡ handle_auth_request repositories
            (record {
              type = 5;
              message_id = 3;
              session_id = 0;
              message_len = length (body_of login);
            })
            alice
            2)
unfolding type_of bad_credentials validate_username validate_password validate every
    is_credential_char
send_payload-served_example =
    send_payload-served repositories login client 2 (omega arith) (omega arith)
      (omega arith, omega arith) refl

build_payload-understood_example :
    (slot_ready_read (build_payload 3 9 welcome) [] ≡ (
      raw_packet_received (
        record { type = 6; message_id = 3; session_id = 9; message_len = length (body_of welcome) },
        body_of welcome,
      )
          ∷ [],
      [],
    ))
    × (process_incoming_packet
          (λ s. s)
          (record {
            type = 6;
            message_id = 3;
            session_id = 9;
            message_len = length (body_of welcome);
          })
          (body_of welcome)
          client
        ≡ (auth_finished true 9, record { message_id = 3; session_id = 9 }))
unfolding type_of body_of write_success write_uint8 append_bytes
build_payload-understood_example =
    build_payload-understood (λ s. s) welcome 3 9 client (omega arith) (omega arith) tt
      (omega arith)

-- "hi" to chat 4.
abbrev hi : MessageSendData
hi = record { chat_id = 4; text = b'h' ∷ b'i' ∷ [] }

abbrev sender : ClientSession
sender = record (new_session 5) { user_id = some 7 }

handle_message_send-deliveries_example :
    handle_message_send repositories hi 1 logged_in
    ≡ some (
      tt,
      record logged_in {
        results =
            deliveries
              (7 ∷ 8 ∷ [])
              7
              (build_payload 0 0 (
                Packet.message_receive_data (record {
                  sender_username = sender.username;
                  chat_id = 4;
                  text = b'h' ∷ b'i' ∷ [];
                })))
              logged_in.registry
              logged_in.heap;
      },
    )
unfolding lookup
handle_message_send-deliveries_example =
    handle_message_send-deliveries repositories hi 1 7 logged_in sender refl refl
      logged_in-IsSound.1
