-- ===== src/Server/Dispatcher.antt =====
-- server/protocol/PacketDispatcher.cpp. The repositories throw nothing, so the handlers of
-- exceptions have no model. Each dispatch is one step: what two workers do at once is not modelled.
use cvcn.Common.{ℕ, Bool, not, ◌||◌, length, ltb, ◌==◌, if◌then◌else◌}
use cvcn.Wire.Bytes.{Bytes}
use cvcn.Wire.Packet
use cvcn.Wire.Packet.{PacketType, PacketHeaderRaw, Credentials, MessageSendData}
use cvcn.Wire.Builder.{build_payload}
use cvcn.Wire.Parser.{parse_credentials, parse_name, parse_message_send}
use cvcn.Validator.{
  max_username_length, validate_username, validate_password, validate_message, validate_chat_id,
}
use cvcn.Server.{Repositories, M, ◌>>=◌, pure, deref, send_raw, request_close}
use cvcn.Server.Services.{
  handle_register_request, handle_auth_request, handle_delete_request, handle_find_user_request,
  handle_create_chat_request, handle_chat_list_request, handle_message_send,
}

-- The cases of `switch (static_cast<PacketType>(header.type))`; all else is its default.
pub data Route : Type 0 where
  connects disconnects registers authenticates deletes finds_user creates_chat lists_chats
        sends_message unknown :
      Route

unfoldable pub route : ℕ → Route
route t =
    if t == 0x1
    then connects
    else if t == 0x8
    then disconnects
    else if t == 0x3
    then registers
    else if t == 0x5
    then authenticates
    else if t == 0x9
    then deletes
    else if t == 0xB
    then finds_user
    else if t == 0xD
    then creates_chat
    else if t == 0xF
    then lists_chats
    else if t == 0x7
    then sends_message
    else unknown

-- `!validateUsername(username) || !validatePassword(password)`
unfoldable pub bad_credentials : Credentials → Bool
bad_credentials c = not (validate_username c.username) || not (validate_password c.password)

-- `query.empty() || query.size() > Validator::MAX_USERNAME_LENGTH`
unfoldable pub bad_query : Bytes → Bool
bad_query query = length query == 0 || ltb max_username_length (length query)

unfoldable pub bad_message : MessageSendData → Bool
bad_message msg = not (validate_chat_id msg.chat_id) || not (validate_message msg.text)

-- `if (!parse) break; if (bad) break; handle;`: a refused packet is logged and has no answer.
unfoldable pub checked :
    {Db A : Type 0} → Bool × A → (A → Bool) → (A → M Db (Unit {0})) → M Db (Unit {0})
checked (ok, a) bad handle = if not ok then pure tt else if bad a then pure tt else handle a

module _ {Db : Type 0} (repo : Repositories Db) where
  unfoldable pub handle_connect_request : PacketHeaderRaw → ℕ → M Db (Unit {0})
  handle_connect_request header session = do
    s ← deref session
    let id = if header.session_id == 0 then s.file_descriptor else header.session_id
    send_raw session (build_payload header.message_id id Packet.connect_response_data)

  unfoldable pub handle : Route → PacketHeaderRaw → Bytes → ℕ → M Db (Unit {0})
  handle connects header body session = handle_connect_request header session
  handle disconnects header body session = request_close session
  handle registers header body session =
      checked (parse_credentials body) bad_credentials
        λ c. handle_register_request repo header c session
  handle authenticates header body session =
      checked (parse_credentials body) bad_credentials
        λ c. handle_auth_request repo header c session
  handle deletes header body session =
      checked (parse_credentials body) bad_credentials
        λ c. handle_delete_request repo header c session
  handle finds_user header body session =
      checked (parse_name body) bad_query
        λ query. handle_find_user_request repo header query session
  handle creates_chat header body session =
      checked (parse_name body) (λ peer. not (validate_username peer))
        λ peer. handle_create_chat_request repo header peer session
  handle lists_chats header body session = handle_chat_list_request repo header session
  handle sends_message header body session =
      checked (parse_message_send body) bad_message λ msg. handle_message_send repo msg session
  handle unknown header body session = pure tt

  unfoldable pub dispatch : PacketHeaderRaw → Bytes → ℕ → M Db (Unit {0})
  dispatch header body session = handle (route header.type) header body session
