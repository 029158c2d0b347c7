-- ===== src/Wire/Builder.antt =====
-- protocol/PacketBuilder.cpp (the same text in server/ and client/).
use cvcn.Common.{ℕ, ◌%◌, ◌^◌, Bool, List, [], ◌∷◌, ◌++◌, length, if◌then◌else◌}
use cvcn.Wire.Bytes.{
  Bytes, htons_bytes, htonl_bytes, append_bytes, write_uint8, write_uint16_be, write_uint32_be,
  write_string,
}
use cvcn.Wire.Packet.{
  PacketType, type_code, Credentials, ChatListEntry, Payload, connect_request, connect_response,
  register_request, register_response, auth_request, auth_response, message_send,
  disconnect_request, delete_request, delete_response, find_user_request, find_user_response,
  create_chat_request, create_chat_response, chat_list_request, chat_list_response, message_receive,
  connect_request_data, connect_response_data, register_request_data, register_response_data,
  auth_request_data, auth_response_data, message_send_data, message_receive_data,
  disconnect_request_data, delete_request_data, delete_response_data, find_user_request_data,
  find_user_response_data, create_chat_request_data, create_chat_response_data,
  chat_list_request_data, chat_list_response_data,
}

-- `sizeof(PacketHeaderRaw)`: the struct is packed.
abbrev pub header_size : ℕ
header_size = 12

-- The header in network order; the length is cut to 16 bits.
abbrev pub header_bytes : PacketType → ℕ → ℕ → ℕ → Bytes
header_bytes type message_id session_id size =
    htons_bytes (type_code type)
    ++ (htonl_bytes message_id ++ (htonl_bytes session_id ++ htons_bytes (size % 2 ^ 16)))

-- `buildPacket(type, messageID, sessionID, body)`
unfoldable pub build_packet : PacketType → ℕ → ℕ → Bytes → Bytes
build_packet type message_id session_id body =
    append_bytes
      (append_bytes [] (header_bytes type message_id session_id (length body)) header_size) body
      (length body)

unfoldable pub write_success : Bytes → Bool → Bytes
write_success body success = write_uint8 body (if success then 1 else 0)

unfoldable pub write_credentials : Bytes → Credentials → Bytes
write_credentials body c = write_string (write_string body c.username) c.password

-- `for (const auto& name : data.usernames)`
unfoldable pub write_names : Bytes → List Bytes → Bytes
write_names body [] = body
write_names body (name ∷ names) = write_names (write_string body name) names

-- `for (const auto& entry : data.chats)`
unfoldable pub write_entries : Bytes → List ChatListEntry → Bytes
write_entries body [] = body
write_entries body (e ∷ es) =
    write_entries (write_string (write_uint32_be body e.chat_id) e.peer_username) es

-- The type that each overload passes.
unfoldable pub type_of : Payload → PacketType
type_of connect_request_data = connect_request
type_of connect_response_data = connect_response
type_of (register_request_data c) = register_request
type_of (register_response_data ok) = register_response
type_of (auth_request_data c) = auth_request
type_of (auth_response_data ok) = auth_response
type_of (message_send_data d) = message_send
type_of (message_receive_data d) = message_receive
type_of disconnect_request_data = disconnect_request
type_of (delete_request_data c) = delete_request
type_of (delete_response_data ok) = delete_response
type_of (find_user_request_data query) = find_user_request
type_of (find_user_response_data names) = find_user_response
type_of (create_chat_request_data peer) = create_chat_request
type_of (create_chat_response_data d) = create_chat_response
type_of chat_list_request_data = chat_list_request
type_of (chat_list_response_data chats) = chat_list_response

-- The body that each overload writes. The empty structs have no body.
unfoldable pub body_of : Payload → Bytes
body_of connect_request_data = []
body_of connect_response_data = []
body_of (register_request_data c) = write_credentials [] c
body_of (register_response_data ok) = write_success [] ok
body_of (auth_request_data c) = write_credentials [] c
body_of (auth_response_data ok) = write_success [] ok
body_of (message_send_data d) = write_string (write_uint32_be [] d.chat_id) d.text
body_of (message_receive_data d) =
    write_string (write_uint32_be (write_string [] d.sender_username) d.chat_id) d.text
body_of disconnect_request_data = []
body_of (delete_request_data c) = write_credentials [] c
body_of (delete_response_data ok) = write_success [] ok
body_of (find_user_request_data query) = write_string [] query
body_of (find_user_response_data names) =
    write_names (write_uint16_be [] (length names % 2 ^ 16)) names
body_of (create_chat_request_data peer) = write_string [] peer
body_of (create_chat_response_data d) =
    write_string (write_uint32_be (write_success [] d.success) d.chat_id) d.peer_username
body_of chat_list_request_data = []
body_of (chat_list_response_data chats) =
    write_entries (write_uint16_be [] (length chats % 2 ^ 16)) chats

-- `buildPacket(messageID, sessionID, data)`
unfoldable pub build_payload : ℕ → ℕ → Payload → Bytes
build_payload message_id session_id p = build_packet (type_of p) message_id session_id (body_of p)
