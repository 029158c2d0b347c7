-- ===== src/Client/Journey.antt =====
-- A message on its way from the chat window of one client (client/logic/MessageController.cpp) through
-- the server's framing, dispatcher and MessageService to the controllers and the window of another
-- client. The
-- network hands the bytes on as they are.
pub mod Login
use cvcn.Common.{
  ℕ, ◌≤◌, ◌<◌, ◌≡◌, ◌≢◌, refl, ap, ◌∙◌, arith, true, false, inl, inr, Bool-cases, Option-cases,
  List, [], ◌∷◌, ◌++◌, Option, some, length, append_assoc, ◌==◌,
}
use cvcn.Common.Dict.{Dict, lookup}
use cvcn.Wire.Bytes.{Bytes, write_string, write_uint32_be}
use cvcn.Wire.Packet
use cvcn.Wire.Packet.{PacketHeaderRaw, MessageSendData, MessageReceiveData, Payload}
use cvcn.Wire.Builder.{body_of, build_payload}
use cvcn.Wire.RoundTrip.{IsU32, Fits}
use cvcn.Validator.{
  max_username_length, max_message_length, max_reasonable_packet_body, validate_message,
  validate_chat_id,
}
use cvcn.Validator.Spec.{validate_message_iff}
use cvcn.Framing.Server.{extract_all}
use cvcn.Session.{ClientSession}
use cvcn.Server.{Server, Repositories, SessionCommand, send_raw_command}
use cvcn.Server.Dispatcher.{bad_message, dispatch}
use cvcn.Server.Safety.{RegistryLive}
use cvcn.Server.Outcomes.{deliveries, handle_message_send-deliveries}
use cvcn.Client.Connection.{raw_packet_received, slot_ready_read}
use cvcn.Client.Protocol.{send_message, send_payload, process_incoming_packet}
use cvcn.Client.Protocol.Requests.{accepted}
use cvcn.Client.Protocol.Delivery.{
  send_payload-served, build_payload-understood, length-write_string, length-write_uint32_be,
}
use cvcn.Client.Window.{ChatWindow, show, append_incoming_message, append_message_in_history}
use cvcn.Client.Controllers.{
  Client, online, send, send_on, tell, sent, own_message, incoming_message,
  slot_message_send_requested, receive,
}

-- Whoever is in the list, is not excluded and has a live registered session gets the packet.
deliveries-member :
    (before after : List ℕ) (u exclude a : ℕ) (packet : Bytes) (registry : Dict ℕ)
    (heap : Dict ClientSession) (t : ClientSession)
    → (u == exclude) ≡ false
    → lookup u registry ≡ some a
    → lookup a heap ≡ some t
    → (earlier : List SessionCommand) × (later : List SessionCommand) × (deliveries
          (before ++ u ∷ after)
          exclude
          packet
          registry
          heap
        ≡ earlier ++ send_raw_command t.file_descriptor packet ∷ later)
deliveries-member [] after u exclude a packet registry heap t other p e =
    ([], deliveries after exclude packet registry heap, rw (other, p) (rw e refl))
deliveries-member (v ∷ before) after u exclude a packet registry heap t other p e =
    let (earlier, later, q) =
      deliveries-member before after u exclude a packet registry heap t other p e in
    elim (Bool-cases (v == exclude)) [
      | inl same ↦ (earlier, later, rw same q)
      | inr differs ↦ elim (Option-cases (lookup v registry)) [
        | inl unregistered ↦ (earlier, later, rw (differs, unregistered) q)
        | inr (b, pb) ↦ elim (Option-cases (lookup b heap)) [
          | inl gone ↦ (earlier, later, rw (differs, pb) (rw gone q))
          | inr (s, es) ↦ (
            send_raw_command s.file_descriptor packet ∷ earlier,
            later,
            rw (differs, pb) (rw es (ap (λ l. send_raw_command s.file_descriptor packet ∷ l) q)),
          )
        ]
      ]
    ]

accepted-message :
    (d : MessageSendData)
    → 0 < d.chat_id
    → validate_message d.text ≡ true
    → accepted (Packet.message_send_data d) ≡ true
unfolding bad_message validate_chat_id
accepted-message d there ok = ground (arith, there, ok)

slot_message_send_requested-sends :
    (id : ℕ) (text : Bytes) (c : Client)
    → c.socket ≡ online
    → validate_message text ≡ true
    → (slot_message_send_requested id text c).effects
      ≡ c.effects
        ++ own_message c.username text
          ∷ sent (
              build_payload c.protocol.message_id c.protocol.session_id
                (Packet.message_send_data (record { chat_id = id; text = text })))
          ∷ []
unfolding slot_message_send_requested send send_on tell send_message send_payload
slot_message_send_requested-sends id text c up ok =
    rw (ok, slot_message_send_requested)
      (rw (up, send_on) (append_assoc c.effects (own_message c.username text ∷ []) _))

message_receive-small :
    (recv : MessageReceiveData)
    → length recv.sender_username ≤ max_username_length
    → length recv.text ≤ max_message_length
    → length (body_of (Packet.message_receive_data recv)) ≤ max_reasonable_packet_body
unfolding body_of
message_receive-small recv named text_ok =
    let name : Bytes = write_string [] recv.sender_username in
    omega (
      arith,
      named,
      text_ok,
      length-write_string [] recv.sender_username,
      length-write_uint32_be name recv.chat_id,
      length-write_string (write_uint32_be name recv.chat_id) recv.text,
    )

show-incoming :
    (id : ℕ) (username text : Bytes) (from_std_string : Bytes → Bytes) (w : ChatWindow)
    → let w' =
        show from_std_string
          (incoming_message id (from_std_string username) (from_std_string text))
          w in
      (w.current_chat_id ≡ id
        → w' ≡ record w {
          messages = w.messages ++ (from_std_string username, from_std_string text) ∷ [];
        })
      × (w.current_chat_id ≢ id → w' ≡ w)
unfolding show append_incoming_message append_message_in_history
show-incoming id username text from_std_string w = ((λ same. ground arith), λ other. ground arith)

-- What a message that a user sends comes to.
pub record Arrives {Db : Type 0} (repo : Repositories Db) (d : MessageSendData) (a : Client)
    (session : ℕ) (st : Server Db) (username : Bytes) (fd : ℕ) (b : Client)
    (from_std_string : Bytes → Bytes) : Type 0 where
  -- The client sends one packet and shows the message as its own.
  pub packet : Bytes
  pub is_sent :
      (slot_message_send_requested d.chat_id d.text a).effects
      ≡ a.effects ++ own_message a.username d.text ∷ sent packet ∷ []
  -- The server takes the packet off the stream with nothing left over.
  pub header : PacketHeaderRaw
  pub body : Bytes
  pub is_framed :
      extract_all packet ≡ record { packets = (header, body) ∷ []; rest = []; too_large = false }
  -- The dispatch queues one more packet for the descriptor `fd`.
  pub st' : Server Db
  pub is_dispatched : dispatch repo header body session st ≡ some (tt, st')
  pub reply : Bytes
  pub earlier : List SessionCommand
  pub later : List SessionCommand
  pub is_queued : st'.results ≡ st.results ++ (earlier ++ send_raw_command fd reply ∷ later)
  -- The other client takes it off its stream and tells its window.
  pub header' : PacketHeaderRaw
  pub body' : Bytes
  pub is_received : slot_ready_read reply [] ≡ (raw_packet_received (header', body') ∷ [], [])
  pub is_told :
      (chosen : Option Bytes)
      → receive chosen (process_incoming_packet from_std_string header' body' b.protocol).0 b
        ≡ tell (incoming_message d.chat_id (from_std_string username) (from_std_string d.text)) b
  -- The window shows the message in the chat that is selected, and drops it otherwise.
  pub is_displayed :
      (w : ChatWindow)
      → let w' =
          show from_std_string
            (incoming_message d.chat_id (from_std_string username) (from_std_string d.text))
            w in
        (w.current_chat_id ≡ d.chat_id
          → w' ≡ record w {
            messages = w.messages ++ (from_std_string username, from_std_string d.text) ∷ [];
          })
        × (w.current_chat_id ≢ d.chat_id → w' ≡ w)

module _ {Db : Type 0} (repo : Repositories Db) where
  -- A message that the rules accept, for a chat whose identifier is not 0 and has 32 bits, sent on a
  -- working connection by a user who is logged in on a live session under a name of at most 64 bytes,
  -- arrives at each other member of the chat who has a live registered session: the client sends one
  -- packet, the server's framing takes it out with nothing left over, its dispatch queues a packet
  -- for the member's descriptor, and the member's client takes that off its stream and tells its
  -- window of the chat, the sender's name and the text as Qt decodes them; the window appends both to
  -- its messages if that chat is selected in it, and stays as it is otherwise.
  pub message_send-Arrives :
      (d : MessageSendData) (a b : Client) (session sender : ℕ) (st : Server Db)
      (s t : ClientSession) (before after : List ℕ) (u r : ℕ) (from_std_string : Bytes → Bytes)
      → a.socket ≡ online
      → IsU32 a.protocol.message_id
      → IsU32 a.protocol.session_id
      → 0 < d.chat_id
      → IsU32 d.chat_id
      → validate_message d.text ≡ true
      → RegistryLive st.registry st.heap
      → lookup session st.heap ≡ some s
      → s.user_id ≡ some sender
      → length s.username ≤ max_username_length
      → repo.get_chat_member_ids d.chat_id (repo.save_message d.chat_id sender d.text st.db).1
        ≡ before ++ u ∷ after
      → (u == sender) ≡ false
      → lookup u st.registry ≡ some r
      → lookup r st.heap ≡ some t
      → Arrives repo d a session st s.username t.file_descriptor b from_std_string
  unfolding send_payload receive
  message_send-Arrives d a b session sender st s t before after u r from_std_string up small_message
        small_session there u32 ok live e user named members other p q =
      let text_ok = (validate_message_iff d.text).0 ok in
      let fits : Fits (Packet.message_send_data d) = (u32, omega (arith, text_ok.1)) in
      let (framed, served) =
        send_payload-served repo (Packet.message_send_data d) a.protocol session small_message
          small_session fits (accepted-message d there ok) in
      let recv : MessageReceiveData = record {
        sender_username = s.username;
        chat_id = d.chat_id;
        text = d.text;
      } in
      let reply : Bytes = build_payload 0 0 (Packet.message_receive_data recv) in
      let (earlier, later, queued) =
        deliveries-member before after u sender r reply st.registry st.heap t other p q in
      let fits' : Fits (Packet.message_receive_data recv) =
        (omega (arith, named), u32, omega (arith, text_ok.1)) in
      let (received, understood) =
        build_payload-understood from_std_string (Packet.message_receive_data recv) 0 0 b.protocol
          (omega arith) (omega arith) fits' (message_receive-small recv named text_ok.1) in
      record {
        packet = _;
        is_sent = slot_message_send_requested-sends d.chat_id d.text a up ok;
        header = _;
        body = _;
        is_framed = framed;
        st' = _;
        is_dispatched =
            ap (λ run. run st) served
            ∙ handle_message_send-deliveries repo d session sender st s e user live;
        reply = reply;
        earlier = earlier;
        later = later;
        is_queued = ap (λ l. st.results ++ l) (rw members queued);
        header' = _;
        body' = _;
        is_received = received;
        is_told = λ chosen. rw understood refl;
        is_displayed = show-incoming d.chat_id s.username d.text from_std_string;
      }
