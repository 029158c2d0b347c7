-- ===== src/Client/Reading.antt =====
-- From the socket to the controllers: the signals of client/net/Connection.cpp, the slots of
-- client/protocol/ProtocolClient.cpp and client/logic/MainController.cpp that they reach. The answer
-- of the dialog about the users that were found is a parameter, and so is QString::fromStdString.
use cvcn.Common.{
  ◌≡◌, refl, sym, ap, ◌∙◌, arith, true, false, inl, inr, List, [], ◌∷◌, ◌++◌, Option, none, some,
  Bool-cases, Option-cases, append_assoc, append-nil,
}
use cvcn.Wire.Bytes.{Bytes}
use cvcn.Wire.Packet.{PacketHeaderRaw}
use cvcn.Wire.Parser.{parse_header}
use cvcn.Framing.Server.{Packet, Extracted, extract_packet, extract_all, is_too_large}
use cvcn.Framing.Server.Stream.{
  IsDrained, resume, extract_all-append, extract_all-LeavesDrained, extract_all-none,
  extract_all-some, extract_packet-header, parse_header-append,
}
use cvcn.Client.Connection.{
  ConnectionSignal, raw_packet_received, packet_too_large, slot_ready_read,
}
use cvcn.Client.Connection.Agreement.{raws, refuses, slot_ready_read-Agrees}
use cvcn.Client.Protocol.{Signal, users_found, process_incoming_packet}
use cvcn.Client.Controllers.{Client, receive, transport_error, protocol_error, slot_transport_error}

-- `Connection::slotSocketError`
unfoldable pub slot_socket_error : Client → Client
slot_socket_error c = slot_transport_error transport_error c

module _ (from_std_string : Bytes → Bytes) (chosen : List Bytes → Option Bytes) where
  abbrev answer : Signal → Option Bytes
  answer (users_found names) = chosen names
  answer _ = none

  -- The parsers throw nothing.
  unfoldable pub slot_raw_packet_received : Packet → Client → Client
  slot_raw_packet_received (header, body) c =
      let (signal, protocol) = process_incoming_packet from_std_string header body c.protocol in
      receive (answer signal) signal (record c { protocol = protocol })

  -- What a signal of the connection reaches.
  unfoldable pub hear : ConnectionSignal → Client → Client
  hear (raw_packet_received packet) c = slot_raw_packet_received packet c
  hear (packet_too_large n) c = slot_transport_error protocol_error c

  unfoldable pub hear_all : List ConnectionSignal → Client → Client
  hear_all [] c = c
  hear_all (s ∷ rest) c = hear_all rest (hear s c)

  -- One `readyRead` of the socket; the state is the client and `receiveBuffer_`.
  unfoldable pub read_chunk : Bytes → Client × Bytes → Client × Bytes
  read_chunk chunk (c, buffer) =
      let (signals, left) = slot_ready_read chunk buffer in (hear_all signals c, left)

  unfoldable pub read_chunks : List Bytes → Client × Bytes → Client × Bytes
  read_chunks [] state = state
  read_chunks (chunk ∷ rest) state = read_chunks rest (read_chunk chunk state)

abbrev pub stream : List Bytes → Bytes
stream [] = []
stream (chunk ∷ rest) = chunk ++ stream rest

-- Neither a packet nor an announced one is oversized.
abbrev pub IsModest : Extracted → Type 0
IsModest e = (e.too_large ≡ false) × (refuses e.rest ≡ false)

large_not_modest :
    (buf : Bytes) (h : PacketHeaderRaw)
    → parse_header buf ≡ some h
    → is_too_large h ≡ true
    → IsModest (extract_all buf)
    → ⊥
large_not_modest buf h e large modest = elim (Option-cases (extract_packet buf)) [
  | inl p ↦
      let refused : refuses buf ≡ true = rw (e, refuses) large in
      let (small, kept) = rw (extract_all-none buf p) at modest in absurd (ground arith)
  | inr (((h', body), rest), p) ↦
      let same : h' ≡ h = ground (arith, extract_packet-header buf h' body rest p, e) in
      let (small, kept) = rw (extract_all-some buf h' body rest p, same) at modest in
      absurd (ground arith)
]

-- An oversized packet, whole or announced, stays one when more bytes arrive.
IsModest-before :
    (buf more : Bytes) → IsModest (extract_all (buf ++ more)) → IsModest (extract_all buf)
IsModest-before buf more modest =
    let e : Extracted = extract_all buf in
    let resumed : IsModest (resume e more) = rw extract_all-append at modest in
    elim (Bool-cases e.too_large) [
      | inl large ↦ absurd (ground arith)
      | inr small ↦ elim (Option-cases (parse_header e.rest)) [
        | inl no_header ↦ (small, rw (no_header, refuses) refl)
        | inr (h, eh) ↦ elim (Bool-cases (is_too_large h)) [
          | inl large ↦ absurd (
              large_not_modest (e.rest ++ more) h (parse_header-append e.rest more h eh) large
                (rw small at resumed))
          | inr fine ↦ (small, rw (eh, refuses) fine)
        ]
      ]
    ]

raws-append : (ps qs : List Packet) → raws (ps ++ qs) ≡ raws ps ++ raws qs
raws-append [] qs = refl
raws-append (p ∷ ps) qs = ap (λ t. raw_packet_received p ∷ t) (raws-append ps qs)

module _ (from_std_string : Bytes → Bytes) (chosen : List Bytes → Option Bytes) where
  hear_all-append :
      (ss ts : List ConnectionSignal) (c : Client)
      → hear_all from_std_string chosen (ss ++ ts) c
        ≡ hear_all from_std_string chosen ts (hear_all from_std_string chosen ss c)
  unfolding hear_all
  hear_all-append [] ts c = refl
  hear_all-append (s ∷ ss) ts c = hear_all-append ss ts (hear from_std_string chosen s c)

  -- What the client is when it has heard the packets.
  abbrev heard : Extracted → Client → Client × Bytes
  heard e c = (hear_all from_std_string chosen (raws e.packets) c, e.rest)

  read_chunk-heard :
      (chunk buffer : Bytes) (c : Client)
      → IsModest (extract_all (buffer ++ chunk))
      → read_chunk from_std_string chosen chunk (c, buffer)
        ≡ heard (extract_all (buffer ++ chunk)) c
  unfolding read_chunk
  read_chunk-heard chunk buffer c (small, kept) =
      rw ((slot_ready_read-Agrees chunk buffer).kept small kept, read_chunk) refl

  resume-heard :
      (e : Extracted) (more : Bytes) (c : Client)
      → e.too_large ≡ false
      → heard (resume e more) c
        ≡ heard (extract_all (e.rest ++ more)) (hear_all from_std_string chosen (raws e.packets) c)
  resume-heard e more c small =
      rw (small, resume)
        (ap (λ ss. (hear_all from_std_string chosen ss c, (extract_all (e.rest ++ more)).rest))
            (raws-append e.packets _)
          ∙ ap (λ d. (d, (extract_all (e.rest ++ more)).rest))
              (hear_all-append (raws e.packets) _ c))

  read_chunks-heard :
      (chunks : List Bytes) (buffer : Bytes) (c : Client)
      → IsDrained buffer
      → IsModest (extract_all (buffer ++ stream chunks))
      → read_chunks from_std_string chosen chunks (c, buffer)
        ≡ heard (extract_all (buffer ++ stream chunks)) c
  unfolding read_chunks
  read_chunks-heard [] buffer c drained modest = rw (append-nil, drained) (unfold hear_all in refl)
  read_chunks-heard (chunk ∷ rest) buffer c drained modest =
      let e : Extracted = extract_all (buffer ++ chunk) in
      let whole : IsModest (extract_all ((buffer ++ chunk) ++ stream rest)) =
        rw (sym (append_assoc buffer chunk (stream rest))) at modest in
      let first : IsModest e = IsModest-before (buffer ++ chunk) (stream rest) whole in
      let resumed : IsModest (resume e (stream rest)) = rw extract_all-append at whole in
      ap (read_chunks from_std_string chosen rest) (read_chunk-heard chunk buffer c first)
      ∙ read_chunks-heard rest e.rest (hear_all from_std_string chosen (raws e.packets) c)
          (extract_all-LeavesDrained (buffer ++ chunk) first.0) (rw first.0 at resumed)
      ∙ sym (resume-heard e (stream rest) c first.0)
      ∙ ap (λ x. heard x c) (sym (extract_all-append (buffer ++ chunk) (stream rest)))
      ∙ ap (λ b. heard (extract_all b) c) (append_assoc buffer chunk (stream rest))

  -- However the socket cuts a stream without an oversized packet, from an empty buffer on, the
  -- client ends in the state of one that hears the stream's packets one after the other, and the
  -- buffer holds the bytes behind them.
  pub read_chunks-stream :
      (chunks : List Bytes) (c : Client)
      → IsModest (extract_all (stream chunks))
      → let e = extract_all (stream chunks) in
        read_chunks from_std_string chosen chunks (c, [])
        ≡ (hear_all from_std_string chosen (raws e.packets) c, e.rest)
  unfolding extract_packet
  read_chunks-stream chunks c modest =
      read_chunks-heard chunks [] c (extract_all-none [] (unfold parse_header in refl)) modest
