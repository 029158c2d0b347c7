-- ===== src/Sender.antt =====
-- server/net/PacketSender.cpp with the socket and the epoll registration that it drives.
-- The results of `::send` are the environment's: the k-th call on this socket gives `result k`.
pub mod Stream
pub mod Progress
use cvcn.Common.{
  ℕ, suc, ◌≤◌, Bool, true, false, List, [], ◌∷◌, ◌++◌, length, take, drop, ltb, if◌then◌else◌,
}
use cvcn.Wire.Bytes.{Bytes}

-- A count of bytes, EAGAIN or EWOULDBLOCK, or another error.
pub data SendResult : Type 0 where
  sent : ℕ → SendResult
  would_block failed : SendResult

-- `sendQueue_` and `writePending_`, whether the last registered events include EPOLLOUT, what the
-- socket has taken, and how often `::send` was called.
pub record PacketSender : Type 0 where
  pub send_queue : List Bytes
  pub write_pending : Bool
  pub write_armed : Bool
  pub wire : Bytes
  pub calls : ℕ

unfoldable pub init : PacketSender
init = record { send_queue = []; write_pending = false; write_armed = false; wire = []; calls = 0 }

unfoldable pub arm_write_notification : PacketSender → PacketSender
arm_write_notification s = record s { write_pending = true; write_armed = true }

-- One call of `::send` that took `n` bytes of the front buffer, which still is in the queue.
abbrev pub put_wire : PacketSender → ℕ → Bytes → List Bytes → PacketSender
put_wire s n buffer queue = record s {
  send_queue = queue;
  wire = s.wire ++ take n buffer;
  calls = suc s.calls;
}

module _ (result : ℕ → SendResult) where
  -- The loop over the queue: each round pops the front buffer or returns.
  unfoldable pub flush_loop : List Bytes → PacketSender → PacketSender
  flush_loop [] s = record s { send_queue = []; write_pending = false; write_armed = false }
  flush_loop (buffer ∷ rest) s = elim (result s.calls) [
    | would_block ↦
        arm_write_notification (record s { send_queue = buffer ∷ rest; calls = suc s.calls })
    | failed ↦ record s { send_queue = buffer ∷ rest; calls = suc s.calls }
    | sent n ↦ elim (ltb n (length buffer)) [
      | true ↦ arm_write_notification (put_wire s n buffer (drop n buffer ∷ rest))
      | false ↦ flush_loop rest (put_wire s n buffer rest)
    ]
  ]

  unfoldable pub flush_send_queue : PacketSender → PacketSender
  flush_send_queue s = flush_loop s.send_queue s

  unfoldable pub send_packet : Bytes → PacketSender → PacketSender
  send_packet buffer s =
      let queued = record s { send_queue = s.send_queue ++ buffer ∷ [] } in
      if s.write_pending then queued else flush_send_queue queued

  unfoldable pub handle_write : PacketSender → PacketSender
  handle_write s = flush_send_queue (record s { write_pending = false })
