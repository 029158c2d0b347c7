-- ===== src/Sender/Progress.antt =====
-- The sender never stalls while the socket works, and empties its queue if the socket takes bytes.
use cvcn.Common.{
  ℕ, zero, suc, ◌<◌, ◌≡◌, ◌≢◌, refl, arith, true, ◌⊎◌, inl, inr, List, [], ◌∷◌, ◌++◌, length,
  length-append, length-drop, drop, Bool-cases,
}
use cvcn.Wire.Bytes.{Bytes}
use cvcn.Sender.{
  SendResult, sent, failed, PacketSender, flush_loop, flush_send_queue, send_packet, handle_write,
}
use cvcn.Sender.Stream.{concat, Request, packet, writable, serve_all, flush_loop_rule}

-- Whoever waits has asked for EPOLLOUT, and what waits is not forgotten.
pub record IsAwake (s : PacketSender) : Type 0 where
  pub armed : s.write_pending ≡ true → s.write_armed ≡ true
  pub waiting : s.send_queue ≢ [] → s.write_pending ≡ true

module _ (result : ℕ → SendResult) (works : (k : ℕ) → result k ≢ failed) where
  flush_loop-IsAwake : (queue : List Bytes) (s : PacketSender) → IsAwake (flush_loop result queue s)
  flush_loop-IsAwake =
      flush_loop_rule result (λ queue s s'. IsAwake s')
        (λ s. record { armed = λ p. cc; waiting = λ h. absurd (h refl) })
        (λ b bs s e. record { armed = λ p. refl; waiting = λ h. refl })
        (λ b bs s e. absurd (works s.calls e))
        (λ b bs s n e few. record { armed = λ p. refl; waiting = λ h. refl })
        (λ b bs s s' n e all ih. ih)

  send_packet-IsAwake :
      (b : Bytes) (s : PacketSender) → IsAwake s → IsAwake (send_packet result b s)
  unfolding send_packet flush_send_queue
  send_packet-IsAwake b s v = elim (Bool-cases s.write_pending) [
    | inl e ↦ rw (e, send_packet) (record { armed = λ p. v.armed e; waiting = λ h. refl })
    | inr e ↦ rw (e, send_packet) (flush_loop-IsAwake (s.send_queue ++ b ∷ []) _)
  ]

  handle_write-IsAwake : (s : PacketSender) → IsAwake (handle_write result s)
  unfolding handle_write flush_send_queue
  handle_write-IsAwake s = flush_loop-IsAwake s.send_queue _

  -- While `::send` never fails but for EAGAIN, every sequence of calls keeps this: packets that
  -- wait have `writePending_` set, and with `writePending_` set EPOLLOUT is registered.
  pub serve_all-IsAwake :
      (rs : List Request) (s : PacketSender) → IsAwake s → IsAwake (serve_all result rs s)
  unfolding serve_all
  serve_all-IsAwake [] s v = v
  serve_all-IsAwake (packet b ∷ rs) s v =
      serve_all-IsAwake rs (send_packet result b s) (send_packet-IsAwake b s v)
  serve_all-IsAwake (writable ∷ rs) s v =
      serve_all-IsAwake rs (handle_write result s) (handle_write-IsAwake s)

-- `k` rounds of EPOLLOUT.
unfoldable pub handle_writes : (ℕ → SendResult) → ℕ → PacketSender → PacketSender
handle_writes result zero s = s
handle_writes result (suc k) s = handle_writes result k (handle_write result s)

-- Every call of `::send` takes a byte at least.
abbrev pub Accepts : (ℕ → SendResult) → Type 0
Accepts result = (k : ℕ) → (n : ℕ) × (result k ≡ sent n) × (0 < n)

abbrev pub pending : PacketSender → ℕ
pending s = length (concat s.send_queue)

sent-injective : {m n : ℕ} → sent m ≡ sent n → m ≡ n
sent-injective e = cc

module _ (result : ℕ → SendResult) (accepts : Accepts result) where
  taken : (k n : ℕ) → result k ≡ sent n → 0 < n
  taken k n e = let (m, em, pos) = accepts k in ground arith

  flush_loop-shrinks :
      (queue : List Bytes) (s : PacketSender)
      → ((flush_loop result queue s).send_queue ≡ [])
        ⊎ (pending (flush_loop result queue s) < length (concat queue))
  flush_loop-shrinks =
      flush_loop_rule result
        (λ queue s s'. (s'.send_queue ≡ []) ⊎ (pending s' < length (concat queue))) (λ s. inl refl)
        (λ b bs s e. let (m, em, pos) = accepts s.calls in cc)
        (λ b bs s e. let (m, em, pos) = accepts s.calls in cc)
        (λ b bs s n e few. inr (
          omega (
            arith,
            taken s.calls n e,
            length-append b (concat bs),
            length-append (drop n b) (concat bs),
            length-drop n b,
          )))
        (λ b bs s s' n e all ih. elim ih [
          | inl done ↦ inl done
          | inr less ↦ inr (omega (arith, length-append b (concat bs)))
        ])

  handle_write-shrinks :
      (s : PacketSender)
      → ((handle_write result s).send_queue ≡ []) ⊎ (pending (handle_write result s) < pending s)
  unfolding handle_write flush_send_queue
  handle_write-shrinks s = flush_loop-shrinks s.send_queue _

  handle_write-nil :
      (s : PacketSender) → s.send_queue ≡ [] → (handle_write result s).send_queue ≡ []
  unfolding handle_write flush_send_queue
  handle_write-nil s e = rw e (unfold flush_loop in refl)

  handle_writes-nil :
      (k : ℕ) (s : PacketSender) → s.send_queue ≡ [] → (handle_writes result k s).send_queue ≡ []
  unfolding handle_writes
  handle_writes-nil zero s e = e
  handle_writes-nil (suc k) s e = handle_writes-nil k (handle_write result s) (handle_write-nil s e)

  -- If every call of `::send` takes a byte at least, the queue is empty after one more EPOLLOUT
  -- event than there are bytes waiting.
  pub handle_writes-empties :
      (k : ℕ) (s : PacketSender) → pending s < k → (handle_writes result k s).send_queue ≡ []
  unfolding handle_writes
  handle_writes-empties zero s h = elim h [ ]
  handle_writes-empties (suc k) s h = elim (handle_write-shrinks s) [
    | inl done ↦ handle_writes-nil k (handle_write result s) done
    | inr less ↦ handle_writes-empties k (handle_write result s) (omega arith)
  ]
