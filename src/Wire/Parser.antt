-- ===== src/Wire/Parser.antt =====
-- protocol/PacketParser.cpp (the same text in server/ and client/). A parser returns its Boolean
-- and the struct as it leaves it, which is partly filled or stale where the Boolean is false.
use cvcn.Common.{ℕ, zero, suc, Bool, true, false, not, List, [], ◌∷◌, Option, none, some, ◌==◌}
use cvcn.Wire.Bytes.{
  Bytes, Read, ntohs_bytes, ntohl_bytes, read_uint8, read_uint16_be, read_uint32_be, read_string,
}
use cvcn.Wire.Packet.{
  PacketType, PacketHeaderRaw, Credentials, ChatListEntry, MessageSendData, MessageReceiveData,
  CreateChatResponseData, Payload, connect_request, connect_response, register_request,
  register_response, auth_request, auth_response, message_send, disconnect_request, delete_request,
  delete_response, find_user_request, find_user_response, create_chat_request, create_chat_response,
  chat_list_request, chat_list_response, message_receive, connect_request_data,
  connect_response_data, register_request_data, register_response_data, auth_request_data,
  auth_response_data, message_send_data, message_receive_data, disconnect_request_data,
  delete_request_data, delete_response_data, find_user_request_data, find_user_response_data,
  create_chat_request_data, create_chat_response_data, chat_list_request_data,
  chat_list_response_data,
}

-- The header of the first twelve bytes, or nothing if there are fewer.
unfoldable pub parse_header : Bytes → Option PacketHeaderRaw
parse_header (t0 ∷ t1 ∷ m0 ∷ m1 ∷ m2 ∷ m3 ∷ s0 ∷ s1 ∷ s2 ∷ s3 ∷ l0 ∷ l1 ∷ rest) = some (record {
  type = ntohs_bytes t0 t1;
  message_id = ntohl_bytes m0 m1 m2 m3;
  session_id = ntohl_bytes s0 s1 s2 s3;
  message_len = ntohs_bytes l0 l1;
})
parse_header raw = none

-- `remaining == 0`
abbrev pub at_end : Bytes → Bool
at_end [] = true
at_end (b ∷ bs) = false

-- `readUint8(cursor, remaining) != 0`
unfoldable pub read_flag : Bytes → Read Bool
read_flag cursor = let (v, rest) = read_uint8 cursor in (not (v == 0), rest)

unfoldable pub read_credentials : Bytes → Read Credentials
read_credentials cursor =
    let (u, r1) = read_string cursor in
    let (p, r2) = read_string r1 in (record { username = u; password = p }, r2)

-- `for (uint16_t i = 0; i < count; ++i)` over the rounds that are left.
unfoldable pub read_names : ℕ → Bytes → Read (List Bytes)
read_names zero cursor = ([], cursor)
read_names (suc n) cursor =
    let (name, r1) = read_string cursor in let (names, r2) = read_names n r1 in (name ∷ names, r2)

unfoldable pub read_entries : ℕ → Bytes → Read (List ChatListEntry)
read_entries zero cursor = ([], cursor)
read_entries (suc n) cursor =
    let (id, r1) = read_uint32_be cursor in
    let (peer, r2) = read_string r1 in
    let (entries, r3) = read_entries n r2 in
    (record { chat_id = id; peer_username = peer } ∷ entries, r3)

-- A reader and `return remaining == 0`.
abbrev pub finish : {A : Type 0} → Read A → Bool × A
finish (a, rest) = (at_end rest, a)

-- The overloads for `RegisterRequestData`, `AuthRequestData` and `DeleteRequestData`.
unfoldable pub parse_credentials : Bytes → Bool × Credentials
parse_credentials body = finish (read_credentials body)

-- The overloads for the three responses that hold one Boolean.
unfoldable pub parse_success : Bytes → Bool × Bool
parse_success body = finish (read_flag body)

-- The overloads for `FindUserRequestData` and `CreateChatRequestData`.
unfoldable pub parse_name : Bytes → Bool × Bytes
parse_name body = finish (read_string body)

unfoldable pub parse_message_send : Bytes → Bool × MessageSendData
parse_message_send body =
    let (id, r1) = read_uint32_be body in
    let (t, r2) = read_string r1 in (at_end r2, record { chat_id = id; text = t })

unfoldable pub parse_message_receive : Bytes → Bool × MessageReceiveData
parse_message_receive body =
    let (sender, r1) = read_string body in
    let (id, r2) = read_uint32_be r1 in
    let (t, r3) = read_string r2 in
    (at_end r3, record { sender_username = sender; chat_id = id; text = t })

unfoldable pub parse_create_chat_response : Bytes → Bool × CreateChatResponseData
parse_create_chat_response body =
    let (ok, r1) = read_flag body in
    let (id, r2) = read_uint32_be r1 in
    let (peer, r3) = read_string r2 in
    (at_end r3, record { success = ok; chat_id = id; peer_username = peer })

unfoldable pub parse_find_user_response : Bytes → Bool × List Bytes
parse_find_user_response body =
    let (count, r1) = read_uint16_be body in finish (read_names count r1)

unfoldable pub parse_chat_list_response : Bytes → Bool × List ChatListEntry
parse_chat_list_response body =
    let (count, r1) = read_uint16_be body in finish (read_entries count r1)

abbrev as_payload : {A : Type 0} → (A → Payload) → Bool × A → Bool × Payload
as_payload f (ok, a) = (ok, f a)

-- `parseData(body, data)`: the overload for the struct of each packet type. An empty struct is
-- accepted with any body.
unfoldable pub parse_data : PacketType → Bytes → Bool × Payload
parse_data connect_request body = (true, connect_request_data)
parse_data connect_response body = (true, connect_response_data)
parse_data register_request body = as_payload register_request_data (parse_credentials body)
parse_data register_response body = as_payload register_response_data (parse_success body)
parse_data auth_request body = as_payload auth_request_data (parse_credentials body)
parse_data auth_response body = as_payload auth_response_data (parse_success body)
parse_data message_send body = as_payload message_send_data (parse_message_send body)
parse_data disconnect_request body = (true, disconnect_request_data)
parse_data message_receive body = as_payload message_receive_data (parse_message_receive body)
parse_data delete_request body = as_payload delete_request_data (parse_credentials body)
parse_data delete_response body = as_payload delete_response_data (parse_success body)
parse_data find_user_request body = as_payload find_user_request_data (parse_name body)
parse_data find_user_response body =
    as_payload find_user_response_data (parse_find_user_response body)
parse_data create_chat_request body = as_payload create_chat_request_data (parse_name body)
parse_data create_chat_response body =
    as_payload create_chat_response_data (parse_create_chat_response body)
parse_data chat_list_request body = (true, chat_list_request_data)
parse_data chat_list_response body =
    as_payload chat_list_response_data (parse_chat_list_response body)
