-- ===== src/Client/Journey/Login.antt =====
-- A login on its way from the account dialog to the server's AuthService and back to the client's state.
use cvcn.Common.{
  ℕ, ◌≤◌, ◌≡◌, ◌↔◌, refl, ap, ◌∙◌, arith, Bool, true, false, List, [], ◌∷◌, ◌++◌, Option, some,
  length,
}
use cvcn.Common.Dict.{lookup}
use cvcn.Wire.Bytes.{Bytes, write_uint8, append_bytes}
use cvcn.Wire.Packet
use cvcn.Wire.Packet.{PacketHeaderRaw, Credentials, Payload}
use cvcn.Wire.Builder.{body_of, build_payload, write_success}
use cvcn.Wire.RoundTrip.{IsU32, FitsCredentials}
use cvcn.Validator.{max_reasonable_packet_body}
use cvcn.Validator.Spec.{validate_username_iff, validate_password_iff}
use cvcn.Framing.Server.{extract_all}
use cvcn.Framing.Server.Frames.{packet_of}
use cvcn.Session.{ClientSession}
use cvcn.Server.{Server, Repositories, send_raw_command}
use cvcn.Server.Dispatcher.{bad_credentials, dispatch}
use cvcn.Server.Services.{password_hash}
use cvcn.Server.Outcomes.{answered, handle_auth_request-outcome}
use cvcn.Client.Connection.{raw_packet_received, slot_ready_read}
use cvcn.Client.Protocol.{
  auth_finished, send_payload, send_auth_request, send_chat_list_request, process_incoming_packet,
}
use cvcn.Client.Protocol.Delivery.{outgoing, send_payload-served, build_payload-understood}
use cvcn.Client.Controllers.{
  Client, authenticated, authenticating, disconnected, online, send, send_on, tell, sent,
  is_authenticating, slot_auth_requested, slot_auth_finished, receive,
}
use cvcn.Client.Reading.{slot_raw_packet_received}

credentials-Fits : (c : Credentials) → bad_credentials c ≡ false → FitsCredentials c
unfolding bad_credentials
credentials-Fits c ok =
    let u = (validate_username_iff c.username).0 (ground arith) in
    let p = (validate_password_iff c.password).0 (ground arith) in
    (omega (arith, u.1), omega (arith, p.1))

auth_response-small :
    (success : Bool)
    → length (body_of (Packet.auth_response_data success)) ≤ max_reasonable_packet_body
unfolding body_of write_success write_uint8 append_bytes
auth_response-small success = omega arith

-- What the client is after the answer.
abbrev pub IsAnswered : Bytes → Bool → Client → Client → Type 0
IsAnswered username true a b = (b.state ≡ authenticated) × (b.username ≡ username)
IsAnswered username false a b = (b.state ≡ disconnected) × (b.username ≡ a.username)

-- What a login that a user asks for comes to.
pub record LogsIn {Db : Type 0} (repo : Repositories Db) (c : Credentials) (a : Client)
    (session : ℕ) (st : Server Db) (s : ClientSession) (success : Bool) : Type 0 where
  -- The client sends one packet, which the server takes off the stream with nothing left over.
  pub packet : Bytes
  pub is_sent :
      (slot_auth_requested c.username c.password a).effects ≡ a.effects ++ sent packet ∷ []
  pub header : PacketHeaderRaw
  pub body : Bytes
  pub is_framed :
      extract_all packet ≡ record { packets = (header, body) ∷ []; rest = []; too_large = false }
  -- The dispatch logs the session in if the login succeeds, and queues one packet for it.
  pub is_dispatched :
      dispatch repo header body session st ≡ some (tt, answered repo header c session s success st)
  pub reply : Bytes
  pub is_queued :
      (answered repo header c session s success st).results
      ≡ st.results ++ send_raw_command s.file_descriptor reply ∷ []
  -- The client takes it off its stream and is logged in or not.
  pub header' : PacketHeaderRaw
  pub body' : Bytes
  pub is_received : slot_ready_read reply [] ≡ (raw_packet_received (header', body') ∷ [], [])
  pub is_answered :
      (from_std_string : Bytes → Bytes) (chosen : List Bytes → Option Bytes)
      → IsAnswered c.username success a (
          slot_raw_packet_received from_std_string chosen
            (header', body')
            (slot_auth_requested c.username c.password a))

-- The client while it waits for the answer.
abbrev asked : Credentials → Client → Client
asked c a = record a {
  pending_username = c.username;
  state = authenticating;
  protocol = (send_auth_request c.username c.password a.protocol).1;
  effects =
      a.effects
      ++ sent
          (build_payload a.protocol.message_id a.protocol.session_id (Packet.auth_request_data c))
        ∷ [];
}

slot_auth_requested-asked :
    (c : Credentials) (a : Client)
    → a.socket ≡ online
    → is_authenticating a.state ≡ false
    → bad_credentials c ≡ false
    → slot_auth_requested c.username c.password a ≡ asked c a
unfolding slot_auth_requested send send_on tell send_auth_request send_payload
slot_auth_requested-asked c a up idle ok =
    rw (idle, slot_auth_requested) (rw ok (rw (up, send_on) refl))

finished-IsAnswered :
    (username : Bytes) (success : Bool) (a b : Client)
    → b.socket ≡ online
    → b.pending_username ≡ username
    → b.username ≡ a.username
    → IsAnswered username success a (slot_auth_finished success b)
unfolding slot_auth_finished send send_on tell send_chat_list_request send_payload
finished-IsAnswered username true a b up pending same = rw (up, send_on) (refl, pending)
finished-IsAnswered username false a b up pending same = (refl, same)

queued_answer :
    {Db : Type 0} (repo : Repositories Db) (header : PacketHeaderRaw) (c : Credentials)
    (session : ℕ) (s : ClientSession) (success : Bool) (st : Server Db)
    → (answered repo header c session s success st).results
      ≡ st.results
        ++ send_raw_command s.file_descriptor
            (build_payload header.message_id header.session_id (Packet.auth_response_data success))
          ∷ []
queued_answer repo header c session s true st = refl
queued_answer repo header c session s false st = refl

auth_response-IsAnswered :
    (from_std_string : Bytes → Bytes) (chosen : List Bytes → Option Bytes)
    (header : PacketHeaderRaw) (body : Bytes) (username : Bytes) (success : Bool) (id : ℕ)
    (a b : Client)
    → b.socket ≡ online
    → b.pending_username ≡ username
    → b.username ≡ a.username
    → process_incoming_packet from_std_string header body b.protocol
      ≡ (auth_finished success id, record b.protocol { session_id = id })
    → IsAnswered username success a
        (slot_raw_packet_received from_std_string chosen (header, body) b)
unfolding slot_raw_packet_received receive
auth_response-IsAnswered from_std_string chosen header body username success id a b up pending same
      p =
    rw (p, slot_raw_packet_received)
      (finished-IsAnswered username success a
        (record b { protocol = record b.protocol { session_id = id } }) up pending same)

module _ {Db : Type 0} (repo : Repositories Db) where
  -- A login with credentials that the rules accept, asked for on a working connection while no other
  -- login is under way, succeeds exactly if the server stores the hash of the password for the user
  -- name. The client sends one packet, the server's framing takes it out with nothing left over, its
  -- dispatch on a live session logs the session in or not and queues one packet for it, and the
  -- client takes that off its stream and is authenticated under the name, or disconnected under the
  -- name that it had.
  pub slot_auth_requested-LogsIn :
      (c : Credentials) (a : Client) (session : ℕ) (st : Server Db) (s : ClientSession)
      → a.socket ≡ online
      → is_authenticating a.state ≡ false
      → IsU32 a.protocol.message_id
      → IsU32 a.protocol.session_id
      → bad_credentials c ≡ false
      → lookup session st.heap ≡ some s
      → (success : Bool) × ((success ≡ true)
          ↔ (repo.get_user_password_hash c.username st.db ≡ password_hash c.password))
        × LogsIn repo c a session st s success
  unfolding send_payload send_auth_request
  slot_auth_requested-LogsIn c a session st s up idle small_message small_session ok e =
      let (framed, served) =
        send_payload-served repo (Packet.auth_request_data c) a.protocol session small_message
          small_session (credentials-Fits c ok) (rw ok refl) in
      let header : PacketHeaderRaw =
        (packet_of (outgoing (Packet.auth_request_data c) a.protocol)).0 in
      let start : slot_auth_requested c.username c.password a ≡ asked c a =
        slot_auth_requested-asked c a up idle ok in
      let (success, right, run) = handle_auth_request-outcome repo header c session st s e in
      let answers = λ (from_std_string : Bytes → Bytes).
        build_payload-understood from_std_string (Packet.auth_response_data success)
          a.protocol.message_id a.protocol.session_id (asked c a).protocol small_message
          small_session tt (auth_response-small success) in
      (
        success,
        right,
        record {
          packet = _;
          is_sent = ap (λ (b : Client). b.effects) start;
          header = header;
          body = _;
          is_framed = framed;
          is_dispatched = ap (λ run. run st) served ∙ run;
          reply = _;
          is_queued = queued_answer repo header c session s success st;
          header' = _;
          body' = _;
          is_received = (answers (λ s. s)).0;
          is_answered = λ from_std_string chosen. rw start (
              auth_response-IsAnswered from_std_string chosen _ _ c.username success _ a (asked c a)
                up refl refl (answers from_std_string).1);
        },
      )
