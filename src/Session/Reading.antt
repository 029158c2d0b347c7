-- ===== src/Session/Reading.antt =====
-- What `handleRead` returns depends on the bytes that arrived, not on how `recv` cut them.
use cvcn.Common.{
  ◌≡◌, refl, sym, ap, ◌∙◌, inl, inr, arith, Bool, true, false, ◌||◌, List, [], ◌++◌, none, length,
  All, append-nil, append_assoc, take-all, Bool-cases, if◌then◌else◌,
}
use cvcn.Wire.Bytes.{Bytes}
use cvcn.Framing.Server.{Packet, append_data, Extracted, extract_packet, extract_all}
use cvcn.Framing.Server.Stream.{
  extract_all-append, extract_all-LeavesDrained, IsDrained, resume, stop, extract_all-none,
}
use cvcn.Framing.Server.Frames.{
  Outgoing, IsSendable, frames, packets_of, add_packets, extract_all-frames,
}
use cvcn.Session.{
  ClientSession, Recv, chunk, closed_by_peer, would_block, failed, close_session, receive,
  handle_read,
}

-- The bytes of the chunks.
abbrev pub received : Recv → Bytes
received (chunk bytes more) = bytes ++ received more
received closed_by_peer = []
received would_block = []
received failed = []

-- Whether the loop ended by a closed or broken connection.
abbrev pub ended : Recv → Bool
ended (chunk bytes more) = ended more
ended closed_by_peer = true
ended would_block = false
ended failed = true

receive-extract_all :
    (s : ClientSession) (bytes : Bytes) → receive s bytes ≡ extract_all (s.assembler ++ bytes)
unfolding append_data
receive-extract_all s bytes = rw (take-all (length bytes) bytes (omega arith))

-- The result of a read, told from the stream as a whole.
pub record Reads (s : ClientSession) (e : Extracted) (fin : Bool)
    (result : List Packet × ClientSession) : Type 0 where
  pub tasks : result.0 ≡ e.packets
  pub closing : result.1.closed ≡ s.closed || e.too_large || fin
  pub kept : e.too_large ≡ false → result.1.assembler ≡ e.rest
  pub same_socket : result.1.file_descriptor ≡ s.file_descriptor
  pub same_user : result.1.user_id ≡ s.user_id

drained :
    (s : ClientSession) (bytes : Bytes)
    → (receive s bytes).too_large ≡ false
    → IsDrained (receive s bytes).rest
drained s bytes =
    rw (receive-extract_all s bytes) (extract_all-LeavesDrained (s.assembler ++ bytes))

Reads-chunk :
    (s : ClientSession) (bytes : Bytes) (more : Recv) (e : Extracted)
    → receive s bytes ≡ e
    → (e.too_large ≡ false
        → Reads
            (record s { assembler = e.rest })
            (extract_all (e.rest ++ received more))
            (ended more)
            (handle_read more (record s { assembler = e.rest })))
    → Reads s (resume e (received more)) (ended more) (handle_read (chunk bytes more) s)
unfolding handle_read close_session
Reads-chunk s bytes more e same ih = rw same (elim (Bool-cases e.too_large) [
  | inl large ↦ record {
    tasks = ground arith;
    closing = ground arith;
    kept = ground arith;
    same_socket = ground arith;
    same_user = ground arith;
  }
  | inr small ↦
      let r = ih small in
      record {
        tasks = ground arith;
        closing = ground arith;
        kept = ground arith;
        same_socket = ground arith;
        same_user = ground arith;
      }
])

-- A read in which `recv` gives no bytes.
Reads-end :
    (r : Recv) (s : ClientSession)
    → received r ≡ []
    → (handle_read r s ≡ ([], if ended r then close_session s else s))
    → IsDrained s.assembler
    → Reads s (extract_all (s.assembler ++ received r)) (ended r) (handle_read r s)
unfolding close_session
Reads-end r s none_left result d =
    let whole : extract_all (s.assembler ++ received r) ≡ stop s.assembler =
      rw (none_left, append-nil) d in
    rw (whole, result)
      (record {
        tasks = refl;
        closing = ground arith;
        kept = ground arith;
        same_socket = ground arith;
        same_user = ground arith;
      })

-- If the assembler held no whole packet before, a read returns exactly the packets of the buffered
-- bytes and all received bytes together, up to the first oversized one, however `recv` cut them.
-- The session is closed exactly if it was closed, a packet was oversized, or the connection ended
-- or broke; without an oversized packet the assembler keeps the incomplete rest.
pub handle_read-Reads :
    (r : Recv) (s : ClientSession)
    → IsDrained s.assembler
    → Reads s (extract_all (s.assembler ++ received r)) (ended r) (handle_read r s)
handle_read-Reads (chunk bytes more) s d =
    let e = receive s bytes in
    let whole : extract_all (s.assembler ++ (bytes ++ received more)) ≡ resume e (received more) =
      ap extract_all (sym (append_assoc s.assembler bytes (received more)))
      ∙ extract_all-append (s.assembler ++ bytes) (received more)
      ∙ ap (λ t. resume t (received more)) (sym (receive-extract_all s bytes)) in
    rw whole (
      Reads-chunk s bytes more e refl
        λ small. handle_read-Reads more (record s { assembler = e.rest }) (drained s bytes small))
handle_read-Reads closed_by_peer s d =
    Reads-end closed_by_peer s refl (unfold handle_read in refl) d
handle_read-Reads would_block s d = Reads-end would_block s refl (unfold handle_read in refl) d
handle_read-Reads failed s d = Reads-end failed s refl (unfold handle_read in refl) d

-- When the buffered and the received bytes are packets that were built with `PacketBuilder`, with
-- 32-bit identifiers and bodies of at most 5120 bytes, followed by less than a packet, the tasks are exactly those packets in
-- order, the assembler keeps the rest, and only the end of the connection closes the session.
pub handle_read-frames :
    (os : List Outgoing) (rest : Bytes) (r : Recv) (s : ClientSession)
    → All IsSendable os
    → extract_packet rest ≡ none
    → IsDrained s.assembler
    → s.assembler ++ received r ≡ frames os ++ rest
    → ((handle_read r s).0 ≡ packets_of os)
      × ((handle_read r s).1.assembler ≡ rest)
      × ((handle_read r s).1.closed ≡ s.closed || ended r)
handle_read-frames os rest r s ok short d same =
    let whole : extract_all (s.assembler ++ received r) ≡ add_packets (packets_of os) (stop rest) =
      ap extract_all same
      ∙ extract_all-frames os rest ok
      ∙ ap (add_packets (packets_of os)) (extract_all-none rest short) in
    let reads : Reads s (add_packets (packets_of os) (stop rest)) (ended r) (handle_read r s) =
      rw whole at (handle_read-Reads r s d) in
    (reads.tasks ∙ append-nil (packets_of os), reads.kept refl, ground (arith, reads.closing))
