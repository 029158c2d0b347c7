-- ===== src/Framing/Server/Frames.antt =====
-- What was built with `PacketBuilder` is what the assembler takes out.
use cvcn.Common.{
  ℕ, ◌+◌, ◌≤◌, ◌≡◌, refl, ap, ◌∙◌, arith, false, List, [], ◌∷◌, ◌++◌, some, length, All, drop,
  length-append, append_assoc, take-length_append, drop-length_append, le→ltb,
}
use cvcn.Wire.Bytes.{Bytes, htons_bytes, htonl_bytes}
use cvcn.Wire.Packet.{PacketType, type_code}
use cvcn.Wire.Builder.{header_size, build_packet}
use cvcn.Wire.RoundTrip.{IsU32, build_packet-append, parse_header-build_packet}
use cvcn.Validator.{max_reasonable_packet_body}
use cvcn.Framing.Server.{Packet, extract_packet, Extracted, add_packet, is_too_large, extract_all}
use cvcn.Framing.Server.Stream.{extract_packet_intro, extract_all-some, next_small}

-- A packet as its sender sees it.
pub record Outgoing : Type 0 where
  pub type : PacketType
  pub message_id : ℕ
  pub session_id : ℕ
  pub body : Bytes

-- Its identifiers have 32 bits, and its body is one that the server takes.
pub record IsSendable (o : Outgoing) : Type 0 where
  pub small_message_id : IsU32 o.message_id
  pub small_session_id : IsU32 o.session_id
  pub small_body : length o.body ≤ max_reasonable_packet_body

abbrev pub frame : Outgoing → Bytes
frame o = build_packet o.type o.message_id o.session_id o.body

abbrev pub frames : List Outgoing → Bytes
frames [] = []
frames (o ∷ os) = frame o ++ frames os

-- What arrives of it.
abbrev pub packet_of : Outgoing → Packet
packet_of o = (
  record {
    type = type_code o.type;
    message_id = o.message_id;
    session_id = o.session_id;
    message_len = length o.body;
  },
  o.body,
)

abbrev pub packets_of : List Outgoing → List Packet
packets_of [] = []
packets_of (o ∷ os) = packet_of o ∷ packets_of os

length-frame : (o : Outgoing) → length (frame o) ≡ header_size + length o.body
unfolding htons_bytes htonl_bytes
length-frame o = rw (build_packet-append o.type o.message_id o.session_id o.body) (omega arith)

drop_header : (o : Outgoing) (rest : Bytes) → drop header_size (frame o ++ rest) ≡ o.body ++ rest
unfolding htons_bytes htonl_bytes
drop_header o rest = rw (build_packet-append o.type o.message_id o.session_id o.body)

drop-frame :
    (o : Outgoing) (rest : Bytes) → drop (header_size + length o.body) (frame o ++ rest) ≡ rest
drop-frame o rest = rw (← length-frame o) (drop-length_append (frame o) rest)

pub extract_packet-frame :
    (o : Outgoing) (rest : Bytes)
    → IsSendable o
    → extract_packet (frame o ++ rest) ≡ some (packet_of o, rest)
extract_packet-frame o rest ok =
    let header = (packet_of o).0 in
    let parsed =
      parse_header-build_packet o.type o.message_id o.session_id o.body rest ok.small_message_id
        ok.small_session_id (omega (arith, ok.small_body)) in
    let fits : header_size + length o.body ≤ length (frame o ++ rest) =
      omega (arith, length-append (frame o) rest, length-frame o) in
    extract_packet_intro (frame o ++ rest) header parsed fits
    ∙ rw (drop_header o rest, take-length_append o.body rest, drop-frame o rest)

not_too_large : (o : Outgoing) → IsSendable o → is_too_large (packet_of o).0 ≡ false
not_too_large o ok = le→ltb _ _ ok.small_body

abbrev pub add_packets : List Packet → Extracted → Extracted
add_packets ps e = record e { packets = ps ++ e.packets }

extract_all-frame :
    (o : Outgoing) (rest : Bytes)
    → IsSendable o
    → extract_all (frame o ++ rest) ≡ add_packet (packet_of o) (extract_all rest)
extract_all-frame o rest ok =
    extract_all-some (frame o ++ rest) (packet_of o).0 o.body rest (extract_packet-frame o rest ok)
    ∙ next_small (packet_of o).0 o.body rest (extract_all rest) (not_too_large o ok)

-- A buffer that begins with built packets gives exactly those packets, in order, and then whatever
-- the bytes behind them give.
pub extract_all-frames :
    (os : List Outgoing) (rest : Bytes)
    → All IsSendable os
    → extract_all (frames os ++ rest) ≡ add_packets (packets_of os) (extract_all rest)
extract_all-frames [] rest ok = refl
extract_all-frames (o ∷ os) rest (ok, oks) =
    ap extract_all (append_assoc (frame o) (frames os) rest)
    ∙ extract_all-frame o (frames os ++ rest) ok
    ∙ ap (add_packet (packet_of o)) (extract_all-frames os rest oks)
