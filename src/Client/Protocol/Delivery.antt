-- ===== src/Client/Protocol/Delivery.antt =====
-- A request that the rules accept arrives at its handler, and an answer at the user interface.
use cvcn.Common.{
  ℕ, ◌+◌, ◌≤◌, ◌≡◌, refl, sym, ap, subst, ◌∙◌, arith, true, false, not, [], ◌∷◌, ◌++◌, length,
  length-append, length-take, append-nil,
}
use cvcn.Wire.Bytes.{Bytes, htons_bytes, htonl_bytes, write_string, write_uint32_be}
use cvcn.Wire.Bytes.Laws.{string_bytes, write_string-append, write_uint32_be-append}
use cvcn.Wire.Packet
use cvcn.Wire.Packet.{type_code, PacketHeaderRaw, Payload, Credentials}
use cvcn.Wire.Builder.{type_of, body_of, build_payload, write_credentials}
use cvcn.Wire.RoundTrip.{IsU32, Fits}
use cvcn.Validator.{max_reasonable_packet_body}
use cvcn.Validator.Spec.{validate_username_iff, validate_password_iff, validate_message_iff}
use cvcn.Framing.Server.{extract_all, extract_packet}
use cvcn.Framing.Server.Stream.{extract_all-none}
use cvcn.Framing.Server.Frames.{
  Outgoing, IsSendable, packet_of, packets_of, add_packets, frame, extract_all-frames,
}
use cvcn.Server.{Repositories}
use cvcn.Server.Dispatcher.{bad_credentials, bad_query, bad_message, dispatch}
use cvcn.Client.Connection.{raw_packet_received, slot_ready_read}
use cvcn.Client.Connection.Agreement.{Agrees, slot_ready_read-Agrees}
use cvcn.Client.Protocol.{ProtocolClient, send_payload, process_incoming_packet}
use cvcn.Client.Protocol.Answers.{session_after, meaning, process_incoming_packet-meaning}
use cvcn.Wire.Parser.{parse_header}
use cvcn.Client.Protocol.Requests.{accepted, served, dispatch-served}

length-string_bytes : (s : Bytes) → length (string_bytes s) ≤ 2 + length s
unfolding string_bytes htons_bytes
length-string_bytes s = omega (arith, length-take _ s)

pub length-write_string :
    (buf s : Bytes) → length (write_string buf s) ≤ length buf + (2 + length s)
length-write_string buf s =
    rw write_string-append
      (omega (arith, length-append buf (string_bytes s), length-string_bytes s))

pub length-write_uint32_be : (buf : Bytes) (v : ℕ) → length (write_uint32_be buf v) ≡ length buf + 4
unfolding htonl_bytes
length-write_uint32_be buf v = rw write_uint32_be-append (length-append buf (htonl_bytes v))

credentials-small :
    (c : Credentials)
    → not (bad_credentials c) ≡ true
    → length (write_credentials [] c) ≤ max_reasonable_packet_body
unfolding bad_credentials write_credentials
credentials-small c ok =
    let u = (validate_username_iff c.username).0 (ground arith) in
    let p = (validate_password_iff c.password).0 (ground arith) in
    omega (
      arith,
      u.1,
      p.1,
      length-write_string [] c.username,
      length-write_string (write_string [] c.username) c.password,
    )

-- The body of an accepted request is within the limit of both ends.
accepted-small : (p : Payload) → accepted p ≡ true → length (body_of p) ≤ max_reasonable_packet_body
unfolding body_of bad_query bad_message
accepted-small (Packet.register_request_data c) ok = credentials-small c ok
accepted-small (Packet.auth_request_data c) ok = credentials-small c ok
accepted-small (Packet.delete_request_data c) ok = credentials-small c ok
accepted-small (Packet.find_user_request_data query) ok =
    ground (arith, length-write_string [] query)
accepted-small (Packet.create_chat_request_data peer) ok =
    omega (arith, ((validate_username_iff peer).0 ok).1, length-write_string [] peer)
accepted-small (Packet.message_send_data d) ok =
    let t = (validate_message_iff d.text).0 (ground arith) in
    omega (
      arith,
      t.1,
      length-write_uint32_be [] d.chat_id,
      length-write_string (write_uint32_be [] d.chat_id) d.text,
    )
accepted-small p ok = ground arith

-- The packet as the client sends it.
abbrev pub outgoing : Payload → ProtocolClient → Outgoing
outgoing p client = record {
  type = type_of p;
  message_id = client.message_id;
  session_id = client.session_id;
  body = body_of p;
}

extract_all-one :
    (o : Outgoing)
    → IsSendable o
    → extract_all (frame o) ≡ record { packets = packet_of o ∷ []; rest = []; too_large = false }
unfolding extract_packet parse_header
extract_all-one o sendable =
    ap extract_all (sym (append-nil (frame o ++ []) ∙ append-nil (frame o)))
    ∙ extract_all-frames (o ∷ []) [] (sendable, tt)
    ∙ ap (add_packets (packets_of (o ∷ []))) (extract_all-none [] refl)

-- A request that the server's rules accept, sent by a client whose identifiers have 32 bits, comes
-- out of the server's framing as one packet with nothing left over, and the dispatch of that packet
-- is the call of the request's handler with the data that the client sent.
pub send_payload-served :
    {Db : Type 0} (repo : Repositories Db) (p : Payload) (client : ProtocolClient) (session : ℕ)
    → IsU32 client.message_id
    → IsU32 client.session_id
    → Fits p
    → accepted p ≡ true
    → let (header, body) = packet_of (outgoing p client) in
      (extract_all (send_payload p client).0
        ≡ record { packets = (header, body) ∷ []; rest = []; too_large = false })
      × (dispatch repo header body session ≡ served repo p header session)
unfolding send_payload build_payload
send_payload-served repo p client session small_message small_session fits ok =
    let o = outgoing p client in
    (
      extract_all-one o (record {
        small_message_id = small_message;
        small_session_id = small_session;
        small_body = accepted-small p ok;
      }),
      dispatch-served repo p (packet_of o).0 session fits refl ∙ rw ok refl,
    )

-- A packet that the server builds from a payload that fits the wire format, with 32-bit identifiers
-- and a body of at most 5120 bytes, comes out of the client's slot as one raw packet with nothing
-- left over, and the client makes of it the signal of the payload's contents, with the texts as Qt
-- decodes them; for a request or ConnectResponse, which no client expects, that is the signal of an
-- unknown packet type.
pub build_payload-understood :
    (from_std_string : Bytes → Bytes) (p : Payload) (message_id session_id : ℕ)
    (client : ProtocolClient)
    → IsU32 message_id
    → IsU32 session_id
    → Fits p
    → length (body_of p) ≤ max_reasonable_packet_body
    → let (header, body) = packet_of (record {
      type = type_of p;
      message_id = message_id;
      session_id = session_id;
      body = body_of p;
    }) in
      let id = session_after p session_id client.session_id in
      (slot_ready_read (build_payload message_id session_id p) []
        ≡ (raw_packet_received (header, body) ∷ [], []))
      × (process_incoming_packet from_std_string header body client
          ≡ (meaning from_std_string p id, record client { session_id = id }))
unfolding build_payload parse_header
build_payload-understood from_std_string p message_id session_id client small_message small_session
      fits small =
    let o : Outgoing = record {
      type = type_of p;
      message_id = message_id;
      session_id = session_id;
      body = body_of p;
    } in
    let whole = extract_all-one o (record {
      small_message_id = small_message;
      small_session_id = small_session;
      small_body = small;
    }) in
    let agrees =
      subst (λ e. Agrees e (slot_ready_read (frame o) [])) whole
        (slot_ready_read-Agrees (frame o) []) in
    (
      agrees.kept refl refl,
      process_incoming_packet-meaning from_std_string p (packet_of o).0 client fits refl,
    )
