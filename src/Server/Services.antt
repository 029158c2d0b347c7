-- ===== src/Server/Services.antt =====
-- server/services/AuthService.cpp, ChatService.cpp and MessageService.cpp over any implementation
-- of the repositories. `session` is the address of the session that sent the request; the pointers
-- to the registry and to the result queue are not null.
use cvcn.Common.{
  ℕ, ◌^◌, ◌%◌, Bool, true, false, not, ◌&&◌, List, [], ◌∷◌, Option, none, some, ltb, ◌==◌,
  if◌then◌else◌,
}
use cvcn.Wire.Bytes.{Bytes}
use cvcn.Wire.Packet.{
  PacketHeaderRaw, Credentials, MessageSendData, MessageReceiveData, CreateChatResponseData,
  Payload, register_response_data, auth_response_data, delete_response_data,
  find_user_response_data, create_chat_response_data, chat_list_response_data, message_receive_data,
}
use cvcn.Wire.Builder.{build_payload}
use cvcn.Session.{ClientSession}
use cvcn.Server.{Repositories, M, ◌>>=◌, ◌>>◌, pure, asks, updates, deref, send_raw, authenticate}
use cvcn.Server.Registry.{register_user, find_by_user_id}

-- `std::string::operator==`
unfoldable pub same_text : Bytes → Bytes → Bool
same_text [] [] = true
same_text [] (d ∷ ds) = false
same_text (c ∷ cs) [] = false
same_text (c ∷ cs) (d ∷ ds) = c == d && same_text cs ds

abbrev pub is_empty : Bytes → Bool
is_empty [] = true
is_empty (c ∷ cs) = false

-- `std::string(config::PASSWORD_HASH_PREFIX) + password`
unfoldable pub password_hash : Bytes → Bytes
password_hash password = b'h' ∷ b'a' ∷ b's' ∷ b'h' ∷ b'_' ∷ password

-- `storedHash == config::PASSWORD_HASH_PREFIX + data.password` for a stored hash that is not empty.
unfoldable pub is_right_password : Bytes → Bytes → Bool
is_right_password stored password =
    not (is_empty stored) && same_text stored (password_hash password)

-- `CreateChatResponseData resp{}` with `success` false.
abbrev pub no_chat : CreateChatResponseData
no_chat = record { success = false; chat_id = 0; peer_username = [] }

-- `peerID == -1 || peerID == userID`
abbrev pub is_other : Option ℕ → ℕ → Option ℕ
is_other none user_id = none
is_other (some peer_id) user_id = if peer_id == user_id then none else some peer_id

module _ {Db : Type 0} (repo : Repositories Db) where
  -- `session->sendRaw(PacketBuilder::buildPacket(header.messageID, header.sessionID, resp))`
  unfoldable pub respond : PacketHeaderRaw → ℕ → Payload → M Db (Unit {0})
  respond header session resp =
      send_raw session (build_payload header.message_id header.session_id resp)

  unfoldable pub handle_register_request : PacketHeaderRaw → Credentials → ℕ → M Db (Unit {0})
  handle_register_request header req session = do
    exists ← asks (repo.user_exists req.username)
    success ←
        if exists
        then pure false
        else updates (repo.add_user req.username (password_hash req.password))
    respond header session (register_response_data success)

  -- `sessionRegistry_->registerUser(userID, session)`
  unfoldable pub register_session : Option ℕ → ℕ → M Db (Unit {0})
  register_session user_id session st =
      some (tt, record st { registry = register_user user_id session st.registry })

  -- The branch of `resp.success`.
  unfoldable pub log_in : Credentials → ℕ → M Db (Unit {0})
  log_in req session = do
    user_id ← asks (repo.get_user_id req.username)
    authenticate session user_id req.username
    register_session user_id session

  unfoldable pub handle_auth_request : PacketHeaderRaw → Credentials → ℕ → M Db (Unit {0})
  handle_auth_request header req session = do
    stored ← asks (repo.get_user_password_hash req.username)
    let success = is_right_password stored req.password
    if success then log_in req session else pure tt
    respond header session (auth_response_data success)

  unfoldable pub handle_delete_request : PacketHeaderRaw → Credentials → ℕ → M Db (Unit {0})
  handle_delete_request header req session = do
    success ← updates (repo.delete_user req.username (password_hash req.password))
    respond header session (delete_response_data success)

  unfoldable pub handle_find_user_request : PacketHeaderRaw → Bytes → ℕ → M Db (Unit {0})
  handle_find_user_request header query session = do
    s ← deref session
    usernames ← elim s.user_id [
      | none ↦ pure []
      | some user_id ↦ asks (repo.find_users query user_id)
    ]
    respond header session (find_user_response_data usernames)

  -- `chatID > 0`, and the cast to `uint32_t`.
  unfoldable pub chat_response : Option ℕ → Bytes → CreateChatResponseData
  chat_response none peer = no_chat
  chat_response (some chat_id) peer =
      if ltb 0 chat_id
      then record { success = true; chat_id = chat_id % 2 ^ 32; peer_username = peer }
      else no_chat

  unfoldable pub create_chat : ℕ → Bytes → M Db CreateChatResponseData
  create_chat user_id peer = do
    found ← asks (repo.get_user_id peer)
    elim (is_other found user_id) [
      | none ↦ pure no_chat
      | some peer_id ↦ do
        chat_id ← updates (repo.find_or_create_direct_chat user_id peer_id)
        pure (chat_response chat_id peer)
    ]

  unfoldable pub handle_create_chat_request : PacketHeaderRaw → Bytes → ℕ → M Db (Unit {0})
  handle_create_chat_request header peer session = do
    s ← deref session
    resp ← elim s.user_id [ none ↦ pure no_chat | some user_id ↦ create_chat user_id peer ]
    respond header session (create_chat_response_data resp)

  unfoldable pub handle_chat_list_request : PacketHeaderRaw → ℕ → M Db (Unit {0})
  handle_chat_list_request header session = do
    s ← deref session
    chats ← elim s.user_id [ none ↦ pure [] | some user_id ↦ asks (repo.get_user_chats user_id) ]
    respond header session (chat_list_response_data chats)

  -- One round of the loop over the members.
  unfoldable pub deliver : ℕ → Bytes → ℕ → M Db (Unit {0})
  deliver exclude packet user_id st =
      if user_id == exclude then some (tt, st) else elim (find_by_user_id user_id st.registry) [
        | none ↦ some (tt, st)
        | some recipient ↦ send_raw recipient packet st
      ]

  unfoldable pub deliver_all : List ℕ → ℕ → Bytes → M Db (Unit {0})
  deliver_all [] exclude packet = pure tt
  deliver_all (user_id ∷ rest) exclude packet = do
    deliver exclude packet user_id
    deliver_all rest exclude packet

  unfoldable pub broadcast_to_chat : List ℕ → ℕ → MessageReceiveData → M Db (Unit {0})
  broadcast_to_chat members exclude payload =
      deliver_all members exclude (build_payload 0 0 (message_receive_data payload))

  -- A message that cannot be saved is logged, and broadcast all the same.
  unfoldable pub post : ℕ → MessageSendData → ClientSession → M Db (Unit {0})
  post sender_id msg s = do
    saved ← updates (repo.save_message msg.chat_id sender_id msg.text)
    members ← asks (repo.get_chat_member_ids msg.chat_id)
    broadcast_to_chat members sender_id
        (record { sender_username = s.username; chat_id = msg.chat_id; text = msg.text })

  unfoldable pub handle_message_send : MessageSendData → ℕ → M Db (Unit {0})
  handle_message_send msg session = do
    s ← deref session
    elim s.user_id [ none ↦ pure tt | some sender_id ↦ post sender_id msg s ]
