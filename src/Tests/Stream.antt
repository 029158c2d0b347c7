-- ===== src/Tests/Stream.antt =====
-- Runs of the framing and of the sender.
use cvcn.Common.{ℕ, ◌≡◌, refl, arith, true, ◌||◌, List, [], ◌∷◌, ◌++◌}
use cvcn.Wire.Bytes.{Bytes, htons_bytes, htonl_bytes, append_bytes}
use cvcn.Wire.Packet
use cvcn.Wire.Packet.{PacketHeaderRaw, Payload, Credentials}
use cvcn.Wire.Builder.{build_packet, body_of, type_of}
use cvcn.Wire.Parser.{parse_header, parse_data}
use cvcn.Wire.RoundTrip.{parse_data-body_of}
use cvcn.Framing.Server.{extract_packet, extract_loop, extract_all}
use cvcn.Framing.Server.Stream.{IsDrained}
use cvcn.Framing.Server.Frames.{Outgoing, IsSendable, packets_of}
use cvcn.Sender.{SendResult, sent, init}
use cvcn.Sender.Stream.{Request, packet, writable, serve_all, stream, handed_over, serve_all-stream}
use cvcn.Sender.Progress.{IsAwake, serve_all-IsAwake, handle_writes, handle_writes-empties}
use cvcn.Session.{Recv, chunk, closed_by_peer, new_session, handle_read}
use cvcn.Session.Reading.{received, ended, Reads, handle_read-Reads, handle_read-frames}

abbrev letters : Bytes
letters = b'a' ∷ b'b' ∷ b'c' ∷ []

-- A packet with three bytes, and the first byte of the next one.
abbrev one_packet : Outgoing
one_packet = record { type = Packet.message_send; message_id = 1; session_id = 2; body = letters }

one_packet-IsSendable : IsSendable one_packet
one_packet-IsSendable = record {
  small_message_id = omega arith;
  small_session_id = omega arith;
  small_body = omega arith;
}

abbrev packet_bytes : Bytes
packet_bytes = 0 ∷ 7 ∷ 0 ∷ 0 ∷ 0 ∷ 1 ∷ 0 ∷ 0 ∷ 0 ∷ 2 ∷ 0 ∷ 3 ∷ letters

abbrev two_reads : Recv
two_reads =
    chunk (0 ∷ 7 ∷ 0 ∷ 0 ∷ 0 ∷ 1 ∷ 0 ∷ [])
      (chunk (0 ∷ 0 ∷ 2 ∷ 0 ∷ 3 ∷ b'a' ∷ b'b' ∷ b'c' ∷ 0 ∷ []) closed_by_peer)

new_session-IsDrained : IsDrained (new_session 5).assembler
unfolding extract_all extract_loop new_session
new_session-IsDrained = refl

handle_read-frames_example :
    ((handle_read two_reads (new_session 5)).0 ≡ packets_of (one_packet ∷ []))
    × ((handle_read two_reads (new_session 5)).1.assembler ≡ 0 ∷ [])
    × ((handle_read two_reads (new_session 5)).1.closed ≡ (new_session 5).closed || ended two_reads)
unfolding extract_packet parse_header new_session build_packet append_bytes htons_bytes htonl_bytes
handle_read-frames_example =
    handle_read-frames (one_packet ∷ []) (0 ∷ []) two_reads (new_session 5)
      (one_packet-IsSendable, tt) refl new_session-IsDrained refl

handle_read-Reads_example :
    Reads
      (new_session 5)
      (extract_all ((new_session 5).assembler ++ received two_reads))
      true
      (handle_read two_reads (new_session 5))
handle_read-Reads_example = handle_read-Reads two_reads (new_session 5) new_session-IsDrained

abbrev login : Payload
login = Packet.auth_request_data (record { username = letters; password = letters })

parse_data-body_of_example : parse_data (type_of login) (body_of login) ≡ (true, login)
parse_data-body_of_example = parse_data-body_of login (omega arith, omega arith)

-- Two bytes a call.
abbrev slow : ℕ → SendResult
slow k = sent 2

abbrev requests : List Request
requests = packet letters ∷ packet letters ∷ writable ∷ []

serve_all-stream_example :
    stream (serve_all slow requests init) ≡ stream init ++ handed_over requests
serve_all-stream_example = serve_all-stream slow requests init

serve_all-IsAwake_example : IsAwake (serve_all slow requests init)
unfolding init
serve_all-IsAwake_example =
    serve_all-IsAwake slow (λ k e. cc) requests init
      (record { armed = λ e. cc; waiting = λ h. absurd (h refl) })

handle_writes-empties_example :
    (handle_writes slow 4 (record init { send_queue = letters ∷ [] })).send_queue ≡ []
handle_writes-empties_example =
    handle_writes-empties slow (λ k. (2, refl, omega arith)) 4
      (record init { send_queue = letters ∷ [] }) (omega arith)
