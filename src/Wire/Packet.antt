-- ===== src/Wire/Packet.antt =====
-- protocol/PacketData.h of the server and of the client, and server/storage/ChatListEntry.h.
-- Structs with the same fields share a record; a struct with no field is a constructor of `Payload`.
use cvcn.Common.{ℕ, Bool, List}
use cvcn.Wire.Bytes.{Bytes}

pub data PacketType : Type 0 where
  connect_request connect_response register_request register_response : PacketType
  auth_request auth_response message_send disconnect_request : PacketType
  delete_request delete_response find_user_request find_user_response : PacketType
  create_chat_request create_chat_response chat_list_request chat_list_response : PacketType
  message_receive : PacketType

-- The enumerator's value.
abbrev pub type_code : PacketType → ℕ
type_code connect_request = 0x1
type_code connect_response = 0x2
type_code register_request = 0x3
type_code register_response = 0x4
type_code auth_request = 0x5
type_code auth_response = 0x6
type_code message_send = 0x7
type_code disconnect_request = 0x8
type_code delete_request = 0x9
type_code delete_response = 0xA
type_code find_user_request = 0xB
type_code find_user_response = 0xC
type_code create_chat_request = 0xD
type_code create_chat_response = 0xE
type_code chat_list_request = 0xF
type_code chat_list_response = 0x10
type_code message_receive = 0x11

pub record PacketHeaderRaw : Type 0 where
  pub type : ℕ
  pub message_id : ℕ
  pub session_id : ℕ
  pub message_len : ℕ

-- `RegisterRequestData`, `AuthRequestData` and `DeleteRequestData`.
pub record Credentials : Type 0 where
  pub username : Bytes
  pub password : Bytes

pub record MessageSendData : Type 0 where
  pub chat_id : ℕ
  pub text : Bytes

pub record MessageReceiveData : Type 0 where
  pub sender_username : Bytes
  pub chat_id : ℕ
  pub text : Bytes

pub record CreateChatResponseData : Type 0 where
  pub success : Bool
  pub chat_id : ℕ
  pub peer_username : Bytes

pub record ChatListEntry : Type 0 where
  pub chat_id : ℕ
  pub peer_username : Bytes

-- One constructor for each struct that the overloads of `buildPacket` and `parseData` take.
pub data Payload : Type 0 where
  connect_request_data connect_response_data : Payload
  register_request_data : Credentials → Payload
  register_response_data : Bool → Payload
  auth_request_data : Credentials → Payload
  auth_response_data : Bool → Payload
  message_send_data : MessageSendData → Payload
  message_receive_data : MessageReceiveData → Payload
  disconnect_request_data : Payload
  delete_request_data : Credentials → Payload
  delete_response_data : Bool → Payload
  find_user_request_data : Bytes → Payload
  find_user_response_data : List Bytes → Payload
  create_chat_request_data : Bytes → Payload
  create_chat_response_data : CreateChatResponseData → Payload
  chat_list_request_data : Payload
  chat_list_response_data : List ChatListEntry → Payload
