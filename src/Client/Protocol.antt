-- ===== src/Client/Protocol.antt =====
-- client/protocol/ProtocolClient.cpp: requests out, answers in. A `QString` is its UTF-8 bytes;
-- QString::fromStdString, which replaces what is not UTF-8, is a parameter. The parsers throw nothing.
pub mod Answers
pub mod Requests
pub mod Delivery
use cvcn.Common.{
  ℕ, ◌+◌, ◌%◌, ◌^◌, Bool, true, false, List, [], ◌∷◌, Option, none, some, ◌==◌, if◌then◌else◌,
}
use cvcn.Wire.Bytes.{Bytes}
use cvcn.Wire.Packet
use cvcn.Wire.Packet.{PacketType, PacketHeaderRaw, Payload, ChatListEntry}
use cvcn.Wire.Builder.{build_payload}
use cvcn.Wire.Parser.{
  parse_success, parse_message_receive, parse_create_chat_response, parse_find_user_response,
  parse_chat_list_response,
}

-- `messageID_` and `sessionID_`.
pub record ProtocolClient : Type 0 where
  pub message_id : ℕ
  pub session_id : ℕ

-- The signals that `processIncomingPacket` emits. The last two are `signalErrorOccurred` of kind
-- Protocol, with "Bad ..." for the packet's type and with "Unknown packet type %1".
pub data Signal : Type 0 where
  registration_finished delete_finished : Bool → Signal
  auth_finished : Bool → ℕ → Signal
  users_found : List Bytes → Signal
  chat_created : Bool → ℕ → Bytes → Signal
  chat_list_received : List ChatListEntry → Signal
  message_received : Bytes → ℕ → Bytes → Signal
  bad_packet : PacketType → Signal
  unknown_packet_type : ℕ → Signal

-- `if (PacketParser::parseData(body, resp)) emit ...; else emit signalErrorOccurred(...);`
unfoldable pub emit_parsed : {A : Type 0} → PacketType → Bool × A → (A → Signal) → Signal
emit_parsed type (ok, resp) signal = if ok then signal resp else bad_packet type

-- `case PacketType::AuthResponse`
unfoldable pub process_auth_response :
    PacketHeaderRaw → Bool × Bool → ProtocolClient → Signal × ProtocolClient
process_auth_response header (ok, success) client =
    let id = if success then header.session_id else client.session_id in
    if ok
    then (auth_finished success id, record client { session_id = id })
    else (bad_packet Packet.auth_response, client)

unfoldable pub process_incoming_packet :
    (Bytes → Bytes) → PacketHeaderRaw → Bytes → ProtocolClient → Signal × ProtocolClient
process_incoming_packet from_std_string header body client =
    if header.type == 0x4
    then (emit_parsed Packet.register_response (parse_success body) registration_finished, client)
    else if header.type == 0x6
    then process_auth_response header (parse_success body) client
    else if header.type == 0xA
    then (emit_parsed Packet.delete_response (parse_success body) delete_finished, client)
    else if header.type == 0xC
    then (emit_parsed Packet.find_user_response (parse_find_user_response body) users_found, client)
    else if header.type == 0xE
    then (
      emit_parsed Packet.create_chat_response (parse_create_chat_response body)
          (λ resp. chat_created resp.success resp.chat_id (from_std_string resp.peer_username)),
      client,
    )
    else if header.type == 0x10
    then (
      emit_parsed Packet.chat_list_response (parse_chat_list_response body) chat_list_received,
      client,
    )
    else if header.type == 0x11
    then (
      emit_parsed Packet.message_receive (parse_message_receive body) (λ recv.
          message_received (from_std_string recv.sender_username) recv.chat_id
            (from_std_string recv.text)),
      client,
    )
    else (unknown_packet_type header.type, client)

-- `sendPacket(PacketBuilder::buildPacket(messageID_, sessionID_, payload)); increaseMessageID();`
unfoldable pub send_payload : Payload → ProtocolClient → Bytes × ProtocolClient
send_payload payload client = (
  build_payload client.message_id client.session_id payload,
  record client { message_id = (client.message_id + 1) % 2 ^ 32 },
)

unfoldable pub send_reg_request : Bytes → Bytes → ProtocolClient → Bytes × ProtocolClient
send_reg_request username password =
    send_payload
      (Packet.register_request_data (record { username = username; password = password }))

unfoldable pub send_auth_request : Bytes → Bytes → ProtocolClient → Bytes × ProtocolClient
send_auth_request username password =
    send_payload (Packet.auth_request_data (record { username = username; password = password }))

unfoldable pub send_delete_request : Bytes → Bytes → ProtocolClient → Bytes × ProtocolClient
send_delete_request username password =
    send_payload (Packet.delete_request_data (record { username = username; password = password }))

unfoldable pub send_message : ℕ → Bytes → ProtocolClient → Bytes × ProtocolClient
send_message chat_id text =
    send_payload (Packet.message_send_data (record { chat_id = chat_id; text = text }))

unfoldable pub send_find_user_request : Bytes → ProtocolClient → Bytes × ProtocolClient
send_find_user_request query = send_payload (Packet.find_user_request_data query)

unfoldable pub send_create_chat_request : Bytes → ProtocolClient → Bytes × ProtocolClient
send_create_chat_request peer = send_payload (Packet.create_chat_request_data peer)

unfoldable pub send_chat_list_request : ProtocolClient → Bytes × ProtocolClient
send_chat_list_request = send_payload Packet.chat_list_request_data

unfoldable pub send_disconnect_request : ProtocolClient → Bytes × ProtocolClient
send_disconnect_request = send_payload Packet.disconnect_request_data
