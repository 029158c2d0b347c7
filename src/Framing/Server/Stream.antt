-- ===== src/Framing/Server/Stream.antt =====
-- The cut does not depend on how the stream arrives.
use cvcn.Common.{
  ℕ, zero, suc, ◌+◌, ◌≤◌, ◌<◌, ◌≡◌, refl, sym, ap, ◌∙◌, inl, inr, arith, true, false, [], ◌∷◌, ◌++◌,
  none, some, length, take, drop, length-append, length-drop, take-append, drop-append, Bool-cases,
  Option-cases,
}
use cvcn.Wire.Bytes.{Bytes}
use cvcn.Wire.Packet.{PacketHeaderRaw}
use cvcn.Wire.Builder.{header_size}
use cvcn.Wire.Parser.{parse_header}
use cvcn.Framing.Server.{
  extract_body, extract_packet, Extracted, add_packet, is_too_large, extract_loop, extract_all,
}

pub parse_header-append :
    (buf more : Bytes) (h : PacketHeaderRaw)
    → parse_header buf ≡ some h
    → parse_header (buf ++ more) ≡ some h
unfolding parse_header
parse_header-append (a ∷ b ∷ c ∷ d ∷ e ∷ f ∷ g ∷ i ∷ j ∷ k ∷ l ∷ m ∷ rest) more h p = p
parse_header-append _ more h p = cc

-- What a packet that was taken says about the buffer.
pub extract_packet-header :
    (buf : Bytes) (h : PacketHeaderRaw) (body rest : Bytes)
    → extract_packet buf ≡ some ((h, body), rest)
    → (parse_header buf ≡ some h)
      × (header_size + h.message_len ≤ length buf)
      × (body ≡ take h.message_len (drop header_size buf))
      × (rest ≡ drop (header_size + h.message_len) buf)
unfolding extract_packet extract_body
extract_packet-header buf h body rest e = ground arith

pub extract_packet_intro :
    (buf : Bytes) (h : PacketHeaderRaw)
    → parse_header buf ≡ some h
    → header_size + h.message_len ≤ length buf
    → extract_packet buf
      ≡ some
          ((h, take h.message_len (drop header_size buf)), drop (header_size + h.message_len) buf)
unfolding extract_packet extract_body
extract_packet_intro buf h e le = ground arith

-- The packet that is taken leaves the buffer at least twelve bytes shorter.
pub extract_packet-shorter :
    (buf : Bytes) (h : PacketHeaderRaw) (body rest : Bytes)
    → extract_packet buf ≡ some ((h, body), rest)
    → length rest + header_size ≤ length buf
extract_packet-shorter buf h body rest e =
    let (eh, fits, eb, er) = extract_packet-header buf h body rest e in
    omega (arith, ap length er, length-drop (header_size + h.message_len) buf)

-- Bytes that arrive behind a whole packet do not change it.
pub extract_packet-append :
    (buf more : Bytes) (h : PacketHeaderRaw) (body rest : Bytes)
    → extract_packet buf ≡ some ((h, body), rest)
    → extract_packet (buf ++ more) ≡ some ((h, body), rest ++ more)
extract_packet-append buf more h body rest e =
    let (eh, fits, eb, er) = extract_packet-header buf h body rest e in
    let total = header_size + h.message_len in
    let whole : header_size + h.message_len ≤ length (buf ++ more) =
      omega (arith, length-append buf more) in
    rw (extract_packet_intro (buf ++ more) h (parse_header-append buf more h eh) whole) (
      rw (
        eb,
        er,
        drop-append header_size buf more (omega arith),
        take-append h.message_len (drop header_size buf) more
            (omega (arith, length-drop header_size buf)),
        drop-append (header_size + h.message_len) buf more fits,
      ))

abbrev pub stop : Bytes → Extracted
stop buf = record { packets = []; rest = buf; too_large = false }

-- A packet, and what the loop makes of the bytes behind it.
abbrev pub next : PacketHeaderRaw → Bytes → Bytes → Extracted → Extracted
next h body rest e = elim (is_too_large h) [
  | true ↦ record { packets = []; rest = rest; too_large = true }
  | false ↦ add_packet (h, body) e
]

pub next_small :
    (h : PacketHeaderRaw) (body rest : Bytes) (e : Extracted)
    → is_too_large h ≡ false
    → next h body rest e ≡ add_packet (h, body) e
next_small h body rest e p = ground arith

extract_loop-none :
    (f : ℕ) (buf : Bytes) → extract_packet buf ≡ none → extract_loop (suc f) buf ≡ stop buf
unfolding extract_loop
extract_loop-none f buf e = rw (e, extract_loop)

extract_loop-some :
    (f : ℕ) (buf : Bytes) (h : PacketHeaderRaw) (body rest : Bytes)
    → extract_packet buf ≡ some ((h, body), rest)
    → extract_loop (suc f) buf ≡ next h body rest (extract_loop f rest)
unfolding extract_loop
extract_loop-some f buf h body rest e = rw (e, extract_loop)

extract_loop-nil : (f : ℕ) → extract_loop f [] ≡ stop []
unfolding extract_loop extract_packet parse_header
extract_loop-nil zero = refl
extract_loop-nil (suc f) = refl

-- Fuel for every byte is enough: more makes no difference.
extract_loop-fuel :
    (f g : ℕ) (buf : Bytes)
    → length buf ≤ f
    → length buf ≤ g
    → extract_loop f buf ≡ extract_loop g buf
extract_loop-fuel f g [] hf hg = rw (extract_loop-nil f, extract_loop-nil g)
extract_loop-fuel zero g (b ∷ bs) hf hg = absurd (omega arith)
extract_loop-fuel (suc f) zero (b ∷ bs) hf hg = absurd (omega arith)
extract_loop-fuel (suc f) (suc g) (b ∷ bs) hf hg = elim (Option-cases (extract_packet (b ∷ bs))) [
  | inl e ↦ extract_loop-none f (b ∷ bs) e ∙ sym (extract_loop-none g (b ∷ bs) e)
  | inr (((h, body), rest), e) ↦
      let short = extract_packet-shorter (b ∷ bs) h body rest e in
      extract_loop-some f (b ∷ bs) h body rest e
      ∙ ap (next h body rest)
          (extract_loop-fuel f g rest (omega (arith, short)) (omega (arith, short)))
      ∙ sym (extract_loop-some g (b ∷ bs) h body rest e)
]

pub extract_all-none : (buf : Bytes) → extract_packet buf ≡ none → extract_all buf ≡ stop buf
unfolding extract_all
extract_all-none [] e = extract_loop-nil 0
extract_all-none (b ∷ bs) e = extract_loop-none (length bs) (b ∷ bs) e

pub extract_all-some :
    (buf : Bytes) (h : PacketHeaderRaw) (body rest : Bytes)
    → extract_packet buf ≡ some ((h, body), rest)
    → extract_all buf ≡ next h body rest (extract_all rest)
unfolding extract_all
extract_all-some [] h body rest e = absurd (omega (arith, extract_packet-shorter [] h body rest e))
extract_all-some (b ∷ bs) h body rest e =
    extract_loop-some (length bs) (b ∷ bs) h body rest e
    ∙ ap (next h body rest) (
        extract_loop-fuel (length bs) (length rest) rest
          (omega (arith, extract_packet-shorter (b ∷ bs) h body rest e)) (omega arith))

-- What the loop makes of a buffer to which more bytes are added: after an oversized packet the
-- bytes wait unread, else the loop goes on from what it had left.
abbrev pub resume : Extracted → Bytes → Extracted
resume e more = elim e.too_large [
  | true ↦ record e { rest = e.rest ++ more }
  | false ↦ record (extract_all (e.rest ++ more)) {
    packets = e.packets ++ (extract_all (e.rest ++ more)).packets;
  }
]

resume-next :
    (h : PacketHeaderRaw) (body rest more : Bytes) (e : Extracted)
    → next h body (rest ++ more) (resume e more) ≡ resume (next h body rest e) more
resume-next h body rest more e = ground arith

extract_all-append_below :
    (n : ℕ) (buf more : Bytes)
    → length buf < n
    → extract_all (buf ++ more) ≡ resume (extract_all buf) more
extract_all-append_below zero buf more hn = elim hn [ ]
extract_all-append_below (suc n) buf more hn = elim (Option-cases (extract_packet buf)) [
  | inl e ↦ rw (extract_all-none buf e) refl
  | inr (((h, body), rest), e) ↦
      let short = extract_packet-shorter buf h body rest e in
      extract_all-some (buf ++ more) h body (rest ++ more)
        (extract_packet-append buf more h body rest e)
      ∙ ap (next h body (rest ++ more))
          (extract_all-append_below n rest more (omega (arith, short)))
      ∙ resume-next h body rest more (extract_all rest)
      ∙ ap (λ t. resume t more) (sym (extract_all-some buf h body rest e))
]

-- Cutting a stream that arrives in two parts gives the packets of the first part, then those that
-- the second part completes; the loop stops at the first oversized packet either way.
pub extract_all-append :
    (buf more : Bytes) → extract_all (buf ++ more) ≡ resume (extract_all buf) more
extract_all-append buf more = extract_all-append_below (suc (length buf)) buf more (omega arith)

-- Nothing more can be taken out of the buffer.
abbrev pub IsDrained : Bytes → Type 0
IsDrained buf = extract_all buf ≡ stop buf

abbrev LeavesDrained : Extracted → Type 0
LeavesDrained e = e.too_large ≡ false → IsDrained e.rest

next-LeavesDrained :
    (h : PacketHeaderRaw) (body rest : Bytes) (e : Extracted)
    → LeavesDrained e
    → LeavesDrained (next h body rest e)
next-LeavesDrained h body rest e d = elim (Bool-cases (is_too_large h)) [
  | inl large ↦ rw (large, next) (λ p. cc)
  | inr small ↦ rw (small, next) d
]

extract_all-LeavesDrained_below :
    (n : ℕ) (buf : Bytes) → length buf < n → LeavesDrained (extract_all buf)
extract_all-LeavesDrained_below zero buf hn = elim hn [ ]
extract_all-LeavesDrained_below (suc n) buf hn = elim (Option-cases (extract_packet buf)) [
  | inl e ↦ rw (extract_all-none buf e) (λ p. extract_all-none buf e)
  | inr (((h, body), rest), e) ↦ rw (extract_all-some buf h body rest e) (
      next-LeavesDrained h body rest (extract_all rest) (
        extract_all-LeavesDrained_below n rest
          (omega (arith, extract_packet-shorter buf h body rest e))))
]

-- Unless it stops at an oversized packet, the loop leaves less than a packet.
pub extract_all-LeavesDrained :
    (buf : Bytes) → (extract_all buf).too_large ≡ false → IsDrained (extract_all buf).rest
extract_all-LeavesDrained buf = extract_all-LeavesDrained_below (suc (length buf)) buf (omega arith)
