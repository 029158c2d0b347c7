-- ===== src/Sender/Stream.antt =====
-- The sender is a first-in first-out stream of bytes.
use cvcn.Common.{
  ℕ, suc, ◌≤◌, ◌≡◌, refl, sym, ap, ◌∙◌, true, false, List, [], ◌∷◌, ◌++◌, length, take, drop, ltb,
  append-nil, append_assoc, take-append-drop, take-all, ltb→le, ltb→lt, ◌⊎◌, inl, inr, ◌<◌,
  Bool-cases,
}
use cvcn.Wire.Bytes.{Bytes}
use cvcn.Sender.{
  SendResult, sent, would_block, failed, PacketSender, arm_write_notification, put_wire, flush_loop,
  flush_send_queue, send_packet, handle_write,
}

abbrev pub concat : List Bytes → Bytes
concat [] = []
concat (b ∷ bs) = b ++ concat bs

pub concat-append : (xs ys : List Bytes) → concat (xs ++ ys) ≡ concat xs ++ concat ys
concat-append [] ys = refl
concat-append (x ∷ xs) ys = rw (concat-append xs ys) (sym (append_assoc x (concat xs) (concat ys)))

-- All that was handed over and not lost: what the socket took, then what still waits.
abbrev pub stream : PacketSender → Bytes
stream s = s.wire ++ concat s.send_queue

-- What the main thread asks of a sender.
pub data Request : Type 0 where
  packet : Bytes → Request
  writable : Request

abbrev pub handed_over : List Request → Bytes
handed_over [] = []
handed_over (packet b ∷ rs) = b ++ handed_over rs
handed_over (writable ∷ rs) = handed_over rs

module _ (result : ℕ → SendResult) where
  abbrev pub serve : Request → PacketSender → PacketSender
  serve (packet b) s = send_packet result b s
  serve writable s = handle_write result s

  unfoldable pub serve_all : List Request → PacketSender → PacketSender
  serve_all [] s = s
  serve_all (r ∷ rs) s = serve_all rs (serve r s)

SendResult-cases : (r : SendResult) → ((n : ℕ) × (r ≡ sent n)) ⊎ (r ≡ would_block) ⊎ (r ≡ failed)
SendResult-cases (sent n) = inl (n, refl)
SendResult-cases would_block = inr (inl refl)
SendResult-cases failed = inr (inr refl)

-- One rule for all that is proved of the loop: a case for each way in which a round ends.
module _ (result : ℕ → SendResult) (P : List Bytes → PacketSender → PacketSender → Type 0) where
  pub flush_loop_rule :
      ((s : PacketSender)
        → P [] s (record s { send_queue = []; write_pending = false; write_armed = false }))
      → ((b : Bytes) (bs : List Bytes) (s : PacketSender)
          → result s.calls ≡ would_block
          → P (b ∷ bs) s (record s {
            send_queue = b ∷ bs;
            calls = suc s.calls;
            write_pending = true;
            write_armed = true;
          }))
      → ((b : Bytes) (bs : List Bytes) (s : PacketSender)
          → result s.calls ≡ failed
          → P (b ∷ bs) s (record s { send_queue = b ∷ bs; calls = suc s.calls }))
      → ((b : Bytes) (bs : List Bytes) (s : PacketSender) (n : ℕ)
          → result s.calls ≡ sent n
          → n < length b
          → P (b ∷ bs) s (record s {
            send_queue = drop n b ∷ bs;
            wire = s.wire ++ take n b;
            calls = suc s.calls;
            write_pending = true;
            write_armed = true;
          }))
      → ((b : Bytes) (bs : List Bytes) (s s' : PacketSender) (n : ℕ)
          → result s.calls ≡ sent n
          → length b ≤ n
          → P bs (put_wire s n b bs) s'
          → P (b ∷ bs) s s')
      → (queue : List Bytes) (s : PacketSender) → P queue s (flush_loop result queue s)
  unfolding flush_loop arm_write_notification
  flush_loop_rule empty blocked broken short whole [] s = empty s
  flush_loop_rule empty blocked broken short whole (b ∷ bs) s =
      elim (SendResult-cases (result s.calls)) [
        | inl (n, e) ↦ elim (Bool-cases (ltb n (length b))) [
          | inl few ↦ rw (e, flush_loop) (rw few (short b bs s n e (ltb→lt n (length b) few)))
          | inr all ↦
              rw (e, flush_loop)
                (rw all (
                  whole b bs s (flush_loop result bs (put_wire s n b bs)) n e
                    (ltb→le n (length b) all)
                    (flush_loop_rule empty blocked broken short whole bs (put_wire s n b bs))))
        ]
        | inr (inl e) ↦ rw (e, flush_loop) (blocked b bs s e)
        | inr (inr e) ↦ rw (e, flush_loop) (broken b bs s e)
      ]

module _ (result : ℕ → SendResult) where
  flush_loop-stream :
      (queue : List Bytes) (s : PacketSender)
      → stream (flush_loop result queue s) ≡ s.wire ++ concat queue
  flush_loop-stream =
      flush_loop_rule result (λ queue s s'. stream s' ≡ s.wire ++ concat queue) (λ s. refl)
        (λ b bs s e. refl) (λ b bs s e. refl)
        (λ b bs s n e few.
          append_assoc s.wire (take n b) (drop n b ++ concat bs)
          ∙ ap (λ t. s.wire ++ t)
              (sym (append_assoc (take n b) (drop n b) (concat bs))
                ∙ ap (λ t. t ++ concat bs) (take-append-drop n b)))
        (λ b bs s s' n e all ih.
          ih
          ∙ append_assoc s.wire (take n b) (concat bs)
          ∙ ap (λ t. s.wire ++ (t ++ concat bs)) (take-all n b all))

  send_packet-stream :
      (b : Bytes) (s : PacketSender) → stream (send_packet result b s) ≡ stream s ++ b
  unfolding send_packet flush_send_queue
  send_packet-stream b s =
      let queued : s.wire ++ concat (s.send_queue ++ b ∷ []) ≡ stream s ++ b =
        rw (concat-append, append-nil, append_assoc) in
      elim (Bool-cases s.write_pending) [
        | inl e ↦ rw (e, send_packet) queued
        | inr e ↦ rw (e, send_packet) (flush_loop-stream (s.send_queue ++ b ∷ []) _ ∙ queued)
      ]

  handle_write-stream : (s : PacketSender) → stream (handle_write result s) ≡ stream s
  unfolding handle_write flush_send_queue
  handle_write-stream s = flush_loop-stream s.send_queue _

  -- Whatever the socket answers, the bytes it has taken followed by the bytes that wait are the
  -- bytes of all packets handed over, in the order of the calls: none is lost, doubled or moved.
  pub serve_all-stream :
      (rs : List Request) (s : PacketSender)
      → stream (serve_all result rs s) ≡ stream s ++ handed_over rs
  unfolding serve_all
  serve_all-stream [] s = sym (append-nil (stream s))
  serve_all-stream (packet b ∷ rs) s =
      serve_all-stream rs (send_packet result b s)
      ∙ ap (λ t. t ++ handed_over rs) (send_packet-stream b s)
      ∙ append_assoc (stream s) b (handed_over rs)
  serve_all-stream (writable ∷ rs) s =
      serve_all-stream rs (handle_write result s)
      ∙ ap (λ t. t ++ handed_over rs) (handle_write-stream s)
