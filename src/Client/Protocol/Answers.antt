-- ===== src/Client/Protocol/Answers.antt =====
-- What the server answers is what the client's signals say.
use cvcn.Common.{ℕ, ◌≡◌, arith, true}
use cvcn.Wire.Bytes.{Bytes}
use cvcn.Wire.Packet
use cvcn.Wire.Packet.{PacketType, type_code, PacketHeaderRaw, Payload}
use cvcn.Wire.Builder.{type_of, body_of}
use cvcn.Wire.Parser.{parse_data}
use cvcn.Wire.RoundTrip.{Fits, parse_data-body_of}
use cvcn.Client.Protocol.{
  ProtocolClient, Signal, registration_finished, delete_finished, auth_finished, users_found,
  chat_created, chat_list_received, message_received, unknown_packet_type, emit_parsed,
  process_auth_response, process_incoming_packet,
}

-- The session identifier after an answer.
abbrev pub session_after : Payload → ℕ → ℕ → ℕ
session_after (Packet.auth_response_data true) answered kept = answered
session_after _ answered kept = kept

-- What the user interface is to learn from an answer, with the texts as Qt decodes them.
abbrev pub meaning : (Bytes → Bytes) → Payload → ℕ → Signal
meaning from_std_string (Packet.register_response_data ok) id = registration_finished ok
meaning from_std_string (Packet.auth_response_data ok) id = auth_finished ok id
meaning from_std_string (Packet.delete_response_data ok) id = delete_finished ok
meaning from_std_string (Packet.find_user_response_data names) id = users_found names
meaning from_std_string (Packet.create_chat_response_data d) id =
    chat_created d.success d.chat_id (from_std_string d.peer_username)
meaning from_std_string (Packet.chat_list_response_data chats) id = chat_list_received chats
meaning from_std_string (Packet.message_receive_data d) id =
    message_received (from_std_string d.sender_username) d.chat_id (from_std_string d.text)
meaning from_std_string p id = unknown_packet_type (type_code (type_of p))

-- For every payload that fits the wire format, the client makes of its packet the signal of the
-- same contents, its texts as Qt decodes them, and a successful login alone changes the session identifier, to the packet's. The
-- requests and ConnectResponse, which no client expects, are unknown packet types.
pub process_incoming_packet-meaning :
    (from_std_string : Bytes → Bytes) (p : Payload) (header : PacketHeaderRaw)
    (client : ProtocolClient)
    → Fits p
    → header.type ≡ type_code (type_of p)
    → let id = session_after p header.session_id client.session_id in
      process_incoming_packet from_std_string header (body_of p) client
      ≡ (meaning from_std_string p id, record client { session_id = id })
unfolding process_incoming_packet process_auth_response emit_parsed type_of body_of parse_data
process_incoming_packet-meaning from_std_string p header client fits same =
    ground (arith, parse_data-body_of p fits, same)
