-- ===== src/Session.antt =====
-- server/net/ClientSession.h and ClientSession.cpp: one client's session.
pub mod Reading
use cvcn.Common.{
  ℕ, Bool, true, false, List, [], ◌∷◌, ◌++◌, Option, none, some, length, if◌then◌else◌,
}
use cvcn.Wire.Bytes.{Bytes}
use cvcn.Framing.Server.{PacketAssembler, Packet, append_data, Extracted, extract_all}
use cvcn.Sender.{PacketSender, SendResult}
use cvcn.Sender

-- `userID_` is `none` for -1; the identifiers of the database are positive. `closed_` also stands
-- for the socket: `closeSession` closes the descriptor and takes it off epoll.
pub record ClientSession : Type 0 where
  pub file_descriptor : ℕ
  pub closed : Bool
  pub assembler : PacketAssembler
  pub sender : PacketSender
  pub user_id : Option ℕ
  pub username : Bytes

unfoldable pub new_session : ℕ → ClientSession
new_session fd = record {
  file_descriptor = fd;
  closed = false;
  assembler = [];
  sender = Sender.init;
  user_id = none;
  username = [];
}

unfoldable pub close_session : ClientSession → ClientSession
close_session s = record s { closed = true }

unfoldable pub set_authenticated : Option ℕ → Bytes → ClientSession → ClientSession
set_authenticated user_id username s = record s { user_id = user_id; username = username }

-- The results of `recv` up to the one that ends the loop: a chunk, then more; 0; EAGAIN; an error.
pub data Recv : Type 0 where
  chunk : Bytes → Recv → Recv
  closed_by_peer would_block failed : Recv

-- The chunk joins the assembler, and the packets that are complete are taken out.
abbrev pub receive : ClientSession → Bytes → Extracted
receive s bytes = extract_all (append_data s.assembler bytes (length bytes))

-- A `Task` is a packet; its `session` is this one.
unfoldable pub handle_read : Recv → ClientSession → List Packet × ClientSession
handle_read (chunk bytes more) s =
    let e = receive s bytes in
    let s' = record s { assembler = e.rest } in
    let rest = handle_read more s' in
    if e.too_large then (e.packets, close_session s') else (e.packets ++ rest.0, rest.1)
handle_read closed_by_peer s = ([], close_session s)
handle_read would_block s = ([], s)
handle_read failed s = ([], close_session s)

unfoldable pub handle_write : (ℕ → SendResult) → ClientSession → ClientSession
handle_write result s = record s { sender = Sender.handle_write result s.sender }

unfoldable pub send_raw_direct : (ℕ → SendResult) → Bytes → ClientSession → ClientSession
send_raw_direct result packet s = record s { sender = Sender.send_packet result packet s.sender }
