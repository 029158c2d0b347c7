-- ===== src/Framing/Server.antt =====
-- server/net/PacketAssembler.cpp, and the loop of `ClientSession::handleRead` that empties the
-- assembler. A `PacketAssembler` is its `readBuffer_`.
pub mod Stream
pub mod Frames
use cvcn.Common.{
  ℕ, zero, suc, ◌+◌, Bool, true, false, List, [], ◌∷◌, ◌++◌, Option, none, some, length, take, drop,
  ltb, if◌then◌else◌,
}
use cvcn.Wire.Bytes.{Bytes}
use cvcn.Wire.Packet.{PacketHeaderRaw}
use cvcn.Wire.Builder.{header_size}
use cvcn.Wire.Parser.{parse_header}
use cvcn.Validator.{max_reasonable_packet_body}

abbrev pub PacketAssembler : Type 0
PacketAssembler = Bytes

-- A header and a body.
abbrev pub Packet : Type 0
Packet = PacketHeaderRaw × Bytes

unfoldable pub append_data : PacketAssembler → Bytes → ℕ → PacketAssembler
append_data buffer chunk len = buffer ++ take len chunk

-- The packet at the front, once its header is known.
unfoldable pub extract_body : PacketAssembler → PacketHeaderRaw → Option (Packet × PacketAssembler)
extract_body buffer header =
    let total = header_size + header.message_len in
    if ltb (length buffer) total
    then none
    else some ((header, take header.message_len (drop header_size buffer)), drop total buffer)

-- `none` is `false`: then the buffer stays, and no caller reads the header or the body.
unfoldable pub extract_packet : PacketAssembler → Option (Packet × PacketAssembler)
extract_packet buffer = elim (parse_header buffer) [
  | none ↦ none
  | some header ↦ extract_body buffer header
]

-- What `while (assembler_.extractPacket(header, body))` leaves.
pub record Extracted : Type 0 where
  pub packets : List Packet
  pub rest : PacketAssembler
  pub too_large : Bool

abbrev pub add_packet : Packet → Extracted → Extracted
add_packet p e = record e { packets = p ∷ e.packets }

-- `header.messageLen > config::MAX_REASONABLE_PACKET_BODY`
abbrev pub is_too_large : PacketHeaderRaw → Bool
is_too_large header = ltb max_reasonable_packet_body header.message_len

-- Each round takes twelve bytes at least, so fewer rounds are made than there are bytes.
unfoldable pub extract_loop : ℕ → PacketAssembler → Extracted
extract_loop zero buffer = record { packets = []; rest = buffer; too_large = false }
extract_loop (suc fuel) buffer = elim (extract_packet buffer) [
  | none ↦ record { packets = []; rest = buffer; too_large = false }
  | some ((header, body), rest) ↦ elim (is_too_large header) [
    | true ↦ record { packets = []; rest = rest; too_large = true }
    | false ↦ add_packet (header, body) (extract_loop fuel rest)
  ]
]

unfoldable pub extract_all : PacketAssembler → Extracted
extract_all buffer = extract_loop (length buffer) buffer
