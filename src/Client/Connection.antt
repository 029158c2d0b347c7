-- ===== src/Client/Connection.antt =====
-- client/net/Connection.cpp: `slotReadyRead`, which cuts the stream into packets. The state is
-- `receiveBuffer_`. Nobody that gets a signal touches it.
pub mod Agreement
use cvcn.Common.{
  ℕ, zero, suc, ◌+◌, Bool, true, false, List, [], ◌∷◌, ◌++◌, Option, none, some, length,
  if◌then◌else◌,
}
use cvcn.Wire.Bytes.{Bytes}
use cvcn.Wire.Packet.{PacketHeaderRaw}
use cvcn.Wire.Parser.{parse_header}
use cvcn.Framing.Server.{Packet, extract_body, is_too_large}

-- `signalRawPacketReceived`, and `signalErrorOccurred` with "Packet too large: %1 bytes".
pub data ConnectionSignal : Type 0 where
  raw_packet_received : Packet → ConnectionSignal
  packet_too_large : ℕ → ConnectionSignal

abbrev pub emit : ConnectionSignal → List ConnectionSignal × Bytes → List ConnectionSignal × Bytes
emit signal (signals, buffer) = (signal ∷ signals, buffer)

-- The loop, with fuel for the bytes of the buffer. `MAX_REASONABLE_LEN` is the server's limit. The
-- cut of the body is that of `extract_body`: nothing while bytes are missing.
unfoldable pub read_loop : ℕ → Bytes → List ConnectionSignal × Bytes
read_loop zero buffer = ([], buffer)
read_loop (suc fuel) buffer = elim (parse_header buffer) [
  | none ↦ ([], buffer)
  | some header ↦ elim (is_too_large header) [
    | true ↦ (packet_too_large header.message_len ∷ [], [])
    | false ↦ elim (extract_body buffer header) [
      | none ↦ ([], buffer)
      | some (packet, rest) ↦ emit (raw_packet_received packet) (read_loop fuel rest)
    ]
  ]
]

unfoldable pub slot_ready_read : Bytes → Bytes → List ConnectionSignal × Bytes
slot_ready_read chunk receive_buffer =
    let buffer = receive_buffer ++ chunk in read_loop (length buffer) buffer
