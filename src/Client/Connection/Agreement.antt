-- ===== src/Client/Connection/Agreement.antt =====
-- Both ends cut a stream into the same packets.
use cvcn.Common.{
  ℕ, zero, suc, ◌≤◌, ◌≡◌, refl, ap, ◌∙◌, inl, inr, arith, Bool, true, false, List, [], ◌∷◌, ◌++◌,
  none, some, length, Bool-cases, Option-cases,
}
use cvcn.Wire.Bytes.{Bytes}
use cvcn.Wire.Packet.{PacketHeaderRaw}
use cvcn.Wire.Parser.{parse_header}
use cvcn.Framing.Server.{
  Packet, extract_body, extract_packet, Extracted, add_packet, is_too_large, extract_all,
}
use cvcn.Framing.Server.Stream.{
  stop, next, next_small, extract_packet-header, extract_packet-shorter, extract_all-none,
  extract_all-some,
}
use cvcn.Client.Connection.{
  ConnectionSignal, raw_packet_received, packet_too_large, emit, read_loop, slot_ready_read,
}

-- The packets that the signals carry.
abbrev pub raw_packets : List ConnectionSignal → List Packet
raw_packets [] = []
raw_packets (raw_packet_received p ∷ signals) = p ∷ raw_packets signals
raw_packets (packet_too_large n ∷ signals) = raw_packets signals

abbrev pub raws : List Packet → List ConnectionSignal
raws [] = []
raws (p ∷ ps) = raw_packet_received p ∷ raws ps

-- A header at the front that the client refuses before the body is there.
abbrev pub refuses : Bytes → Bool
refuses buffer = elim (parse_header buffer) [ none ↦ false | some header ↦ is_too_large header ]

-- What the client makes of a stream that the server cuts into `e`.
pub record Agrees (e : Extracted) (r : List ConnectionSignal × Bytes) : Type 0 where
  pub packets : raw_packets r.0 ≡ e.packets
  pub dropped : e.too_large ≡ true → r.1 ≡ []
  pub refused : e.too_large ≡ false → refuses e.rest ≡ true → r.1 ≡ []
  pub kept : e.too_large ≡ false → refuses e.rest ≡ false → r ≡ (raws e.packets, e.rest)

Agrees-emit :
    (p : Packet) (e : Extracted) (r : List ConnectionSignal × Bytes)
    → Agrees e r
    → Agrees (add_packet p e) (emit (raw_packet_received p) r)
Agrees-emit p e r a = record {
  packets = ap (λ t. p ∷ t) a.packets;
  dropped = a.dropped;
  refused = a.refused;
  kept = λ small ok. ap (emit (raw_packet_received p)) (a.kept small ok);
}

extract_packet-body :
    (buf : Bytes) (h : PacketHeaderRaw)
    → parse_header buf ≡ some h
    → extract_packet buf ≡ extract_body buf h
unfolding extract_packet
extract_packet-body buf h e = rw (e, extract_packet) refl

-- A buffer without a whole header, or with a small header and too few bytes.
Agrees-stop : (buf : Bytes) → refuses buf ≡ false → Agrees (stop buf) ([], buf)
Agrees-stop buf ok = record {
  packets = refl;
  dropped = λ p. cc;
  refused = λ p q. cc;
  kept = λ p q. refl;
}

-- A buffer whose first header is oversized, with its body or without.
Agrees-large :
    (buf : Bytes) (h : PacketHeaderRaw)
    → parse_header buf ≡ some h
    → is_too_large h ≡ true
    → Agrees (extract_all buf) (packet_too_large h.message_len ∷ [], [])
Agrees-large buf h e large = elim (Option-cases (extract_packet buf)) [
  | inl p ↦ rw (extract_all-none buf p) (record {
    packets = refl;
    dropped = λ q. refl;
    refused = λ q r. refl;
    kept = λ q r. absurd (ground (arith, e, large));
  })
  | inr (((h', body), rest), p) ↦
      let same : h' ≡ h = ground (arith, extract_packet-header buf h' body rest p, e) in
      rw (extract_all-some buf h' body rest p, same)
        (rw (large, next)
          (record { packets = refl; dropped = λ q. refl; refused = λ q r. refl; kept = λ q r. cc }))
]

refuses-header :
    (buf : Bytes) (h : PacketHeaderRaw) → parse_header buf ≡ some h → refuses buf ≡ is_too_large h
refuses-header buf h e = rw (e, refuses) refl

extract_packet-none : (buf : Bytes) → parse_header buf ≡ none → extract_packet buf ≡ none
unfolding extract_packet
extract_packet-none buf e = rw (e, extract_packet) refl

-- What the loop does in each of its rounds.
read_loop-none : (f : ℕ) (buf : Bytes) → parse_header buf ≡ none → read_loop (suc f) buf ≡ ([], buf)
unfolding read_loop
read_loop-none f buf e = rw (e, read_loop) refl

read_loop-large :
    (f : ℕ) (buf : Bytes) (h : PacketHeaderRaw)
    → parse_header buf ≡ some h
    → is_too_large h ≡ true
    → read_loop (suc f) buf ≡ (packet_too_large h.message_len ∷ [], [])
unfolding read_loop
read_loop-large f buf h e large = rw (e, read_loop) (rw large refl)

read_loop-small :
    (f : ℕ) (buf : Bytes) (h : PacketHeaderRaw)
    → parse_header buf ≡ some h
    → is_too_large h ≡ false
    → read_loop (suc f) buf ≡ elim (extract_body buf h) [
      | none ↦ ([], buf)
      | some (packet, rest) ↦ emit (raw_packet_received packet) (read_loop f rest)
    ]
unfolding read_loop
read_loop-small f buf h e small = rw (e, read_loop) (rw small refl)

-- Whatever fuel the loop has, if it is no less than the bytes of the buffer.
read_loop-Agrees :
    (f : ℕ) (buf : Bytes) → length buf ≤ f → Agrees (extract_all buf) (read_loop f buf)
read_loop-Agrees zero [] enough =
    rw (extract_all-none [] (extract_packet-none [] (unfold parse_header in refl)))
      (unfold read_loop in Agrees-stop [] (unfold parse_header in refl))
read_loop-Agrees zero (b ∷ bs) enough = absurd (omega arith)
read_loop-Agrees (suc f) buf enough = elim (Option-cases (parse_header buf)) [
  | inl e ↦
      rw (extract_all-none buf (extract_packet-none buf e), read_loop-none f buf e)
        (Agrees-stop buf (rw (e, refuses) refl))
  | inr (h, e) ↦ elim (Bool-cases (is_too_large h)) [
    | inl large ↦ rw (read_loop-large f buf h e large) (Agrees-large buf h e large)
    | inr small ↦ elim (Option-cases (extract_body buf h)) [
      | inl p ↦
          rw
            (
              extract_all-none buf (extract_packet-body buf h e ∙ p),
              read_loop-small f buf h e small,
              p,
            )
            (Agrees-stop buf (refuses-header buf h e ∙ small))
      | inr (((h', body), rest), p) ↦
          let q = extract_packet-body buf h e ∙ p in
          let same : h' ≡ h = ground (arith, extract_packet-header buf h' body rest q, e) in
          let short = extract_packet-shorter buf h' body rest q in
          rw
            (
              extract_all-some buf h' body rest q
                  ∙ next_small h' body rest (extract_all rest) (ap is_too_large same ∙ small),
              read_loop-small f buf h e small,
              p,
            )
            (Agrees-emit (h', body) (extract_all rest) (read_loop f rest)
              (read_loop-Agrees f rest (omega (arith, short))))
    ]
  ]
]

-- However a stream arrives, the client's slot passes on the same packets as the server's loop takes
-- out of the same bytes. After an oversized packet, or a header that announces one, its buffer is
-- empty; without one its signals are those packets and its buffer the server's rest.
pub slot_ready_read-Agrees :
    (chunk receive_buffer : Bytes)
    → Agrees (extract_all (receive_buffer ++ chunk)) (slot_ready_read chunk receive_buffer)
unfolding slot_ready_read
slot_ready_read-Agrees chunk receive_buffer =
    read_loop-Agrees (length (receive_buffer ++ chunk)) (receive_buffer ++ chunk) (omega arith)
