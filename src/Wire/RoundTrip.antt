-- ===== src/Wire/RoundTrip.antt =====
-- Every struct that is built is parsed back, and so is every header.
use cvcn.Common.{
  ℕ, ◌%◌, ◌^◌, ◌<◌, ◌≡◌, refl, sym, ap, ◌∙◌, arith, Bool, true, false, List, [], ◌∷◌, ◌++◌, some,
  length, All, take-all, append_assoc, append-nil,
}
use cvcn.Wire.Bytes.{
  Bytes, htons_bytes, htonl_bytes, read_uint8, append_bytes, write_string, write_uint32_be,
  write_uint8,
}
use cvcn.Wire.Bytes.Laws.{
  IsShort, string_bytes, read_uint16_be-bytes, read_uint32_be-bytes, read_string-bytes,
  read_string-bytes_end, write_string-append, write_uint32_be-append, write_uint16_be-append,
}
use cvcn.Wire.Packet
use cvcn.Wire.Packet.{PacketType, type_code, PacketHeaderRaw, Credentials, ChatListEntry, Payload}
use cvcn.Wire.Builder.{
  header_bytes, build_packet, write_success, write_credentials, write_names, write_entries, type_of,
  body_of,
}
use cvcn.Wire.Parser.{
  parse_header, read_flag, read_credentials, read_names, read_entries, parse_credentials,
  parse_success, parse_name, parse_message_send, parse_message_receive, parse_create_chat_response,
  parse_find_user_response, parse_chat_list_response, parse_data,
}

abbrev pub IsU32 : ℕ → Type 0
IsU32 n = n < 2 ^ 32

abbrev pub FitsEntry : ChatListEntry → Type 0
FitsEntry e = IsU32 e.chat_id × IsShort e.peer_username

abbrev pub FitsCredentials : Credentials → Type 0
FitsCredentials c = IsShort c.username × IsShort c.password

-- The values that the wire format can carry: 32-bit identifiers, strings and lists of fewer than
-- 65536 items.
abbrev pub Fits : Payload → Type 0
Fits Packet.connect_request_data = Unit {0}
Fits Packet.connect_response_data = Unit {0}
Fits (Packet.register_request_data c) = FitsCredentials c
Fits (Packet.register_response_data ok) = Unit {0}
Fits (Packet.auth_request_data c) = FitsCredentials c
Fits (Packet.auth_response_data ok) = Unit {0}
Fits (Packet.message_send_data d) = IsU32 d.chat_id × IsShort d.text
Fits (Packet.message_receive_data d) = IsShort d.sender_username × IsU32 d.chat_id × IsShort d.text
Fits Packet.disconnect_request_data = Unit {0}
Fits (Packet.delete_request_data c) = FitsCredentials c
Fits (Packet.delete_response_data ok) = Unit {0}
Fits (Packet.find_user_request_data query) = IsShort query
Fits (Packet.find_user_response_data names) = (length names < 2 ^ 16) × All IsShort names
Fits (Packet.create_chat_request_data peer) = IsShort peer
Fits (Packet.create_chat_response_data d) = IsU32 d.chat_id × IsShort d.peer_username
Fits Packet.chat_list_request_data = Unit {0}
Fits (Packet.chat_list_response_data chats) = (length chats < 2 ^ 16) × All FitsEntry chats

mod_small : (n : ℕ) → n < 2 ^ 16 → n % 2 ^ 16 ≡ n
mod_small n h = omega arith

abbrev names_bytes : List Bytes → Bytes
names_bytes [] = []
names_bytes (name ∷ names) = string_bytes name ++ names_bytes names

abbrev entries_bytes : List ChatListEntry → Bytes
entries_bytes [] = []
entries_bytes (e ∷ es) = htonl_bytes e.chat_id ++ (string_bytes e.peer_username ++ entries_bytes es)

pub write_names-append :
    (buf : Bytes) (names : List Bytes) → write_names buf names ≡ buf ++ names_bytes names
unfolding write_names
write_names-append buf [] = sym (append-nil buf)
write_names-append buf (name ∷ names) =
    write_names-append (write_string buf name) names ∙ rw (write_string-append, append_assoc)

pub write_entries-append :
    (buf : Bytes) (es : List ChatListEntry) → write_entries buf es ≡ buf ++ entries_bytes es
unfolding write_entries
write_entries-append buf [] = sym (append-nil buf)
write_entries-append buf (e ∷ es) =
    write_entries-append (write_string (write_uint32_be buf e.chat_id) e.peer_username) es
    ∙ simp (write_string-append, write_uint32_be-append, append_assoc)

read_names-bytes :
    (names : List Bytes) (rest : Bytes)
    → All IsShort names
    → read_names (length names) (names_bytes names ++ rest) ≡ (names, rest)
unfolding read_names
read_names-bytes [] rest h = refl
read_names-bytes (name ∷ names) rest (h, hs) = simp (
  append_assoc,
  read_string-bytes name (names_bytes names ++ rest) h,
  read_names-bytes names rest hs,
)

read_entries-bytes :
    (es : List ChatListEntry) (rest : Bytes)
    → All FitsEntry es
    → read_entries (length es) (entries_bytes es ++ rest) ≡ (es, rest)
unfolding read_entries
read_entries-bytes [] rest h = refl
read_entries-bytes (e ∷ es) rest ((hid, hs), hes) = simp (
  append_assoc,
  read_uint32_be-bytes e.chat_id (string_bytes e.peer_username ++ (entries_bytes es ++ rest)) hid,
  read_string-bytes e.peer_username (entries_bytes es ++ rest) hs,
  read_entries-bytes es rest hes,
)

read_names-bytes_end :
    (names : List Bytes)
    → All IsShort names
    → read_names (length names) (names_bytes names) ≡ (names, [])
read_names-bytes_end names h = rw append-nil at (read_names-bytes names [] h)

read_entries-bytes_end :
    (es : List ChatListEntry)
    → All FitsEntry es
    → read_entries (length es) (entries_bytes es) ≡ (es, [])
read_entries-bytes_end es h = rw append-nil at (read_entries-bytes es [] h)

read_credentials-written :
    (c : Credentials) → FitsCredentials c → read_credentials (write_credentials [] c) ≡ (c, [])
unfolding read_credentials write_credentials
read_credentials-written c (hu, hp) = simp (
  write_string-append,
  read_string-bytes c.username (string_bytes c.password) hu,
  read_string-bytes_end c.password hp,
)

read_flag-written :
    (ok : Bool) (rest : Bytes) → read_flag (write_success [] ok ++ rest) ≡ (ok, rest)
unfolding read_flag write_success
read_flag-written true rest = unfold read_uint8 write_uint8 append_bytes in refl
read_flag-written false rest = unfold read_uint8 write_uint8 append_bytes in refl

read_flag-written_end : (ok : Bool) → read_flag (write_success [] ok) ≡ (ok, [])
read_flag-written_end ok = rw append-nil at (read_flag-written ok [])

-- A struct that the wire format can carry is parsed back from the body that was built for it, by
-- the parser of its own packet type, with nothing left over.
pub parse_data-body_of : (p : Payload) → Fits p → parse_data (type_of p) (body_of p) ≡ (true, p)
unfolding parse_data body_of type_of parse_credentials parse_success parse_name parse_message_send
    parse_message_receive parse_create_chat_response parse_find_user_response
    parse_chat_list_response
parse_data-body_of Packet.connect_request_data h = refl
parse_data-body_of Packet.connect_response_data h = refl
parse_data-body_of (Packet.register_request_data c) h = rw (read_credentials-written c h)
parse_data-body_of (Packet.register_response_data ok) h = rw (read_flag-written_end ok)
parse_data-body_of (Packet.auth_request_data c) h = rw (read_credentials-written c h)
parse_data-body_of (Packet.auth_response_data ok) h = rw (read_flag-written_end ok)
parse_data-body_of (Packet.message_send_data d) (hid, ht) = simp (
  write_string-append,
  write_uint32_be-append,
  read_uint32_be-bytes d.chat_id (string_bytes d.text) hid,
  read_string-bytes_end d.text ht,
)
parse_data-body_of (Packet.message_receive_data d) (hs, hid, ht) = simp (
  write_string-append,
  write_uint32_be-append,
  append_assoc,
  read_string-bytes d.sender_username (htonl_bytes d.chat_id ++ string_bytes d.text) hs,
  read_uint32_be-bytes d.chat_id (string_bytes d.text) hid,
  read_string-bytes_end d.text ht,
)
parse_data-body_of Packet.disconnect_request_data h = refl
parse_data-body_of (Packet.delete_request_data c) h = rw (read_credentials-written c h)
parse_data-body_of (Packet.delete_response_data ok) h = rw (read_flag-written_end ok)
parse_data-body_of (Packet.find_user_request_data query) h =
    simp (write_string-append, read_string-bytes_end query h)
parse_data-body_of (Packet.find_user_response_data names) (hn, hs) = simp (
  write_names-append,
  write_uint16_be-append,
  read_uint16_be-bytes (length names) (names_bytes names) hn,
  mod_small (length names) hn,
  read_names-bytes_end names hs,
)
parse_data-body_of (Packet.create_chat_request_data peer) h =
    simp (write_string-append, read_string-bytes_end peer h)
parse_data-body_of (Packet.create_chat_response_data d) (hid, hs) = simp (
  write_string-append,
  write_uint32_be-append,
  append_assoc,
  read_flag-written d.success (htonl_bytes d.chat_id ++ string_bytes d.peer_username),
  read_uint32_be-bytes d.chat_id (string_bytes d.peer_username) hid,
  read_string-bytes_end d.peer_username hs,
)
parse_data-body_of Packet.chat_list_request_data h = refl
parse_data-body_of (Packet.chat_list_response_data chats) (hn, hs) = simp (
  write_entries-append,
  write_uint16_be-append,
  read_uint16_be-bytes (length chats) (entries_bytes chats) hn,
  mod_small (length chats) hn,
  read_entries-bytes_end chats hs,
)

-- `buildPacket` is the header followed by the body.
pub build_packet-append :
    (type : PacketType) (message_id session_id : ℕ) (body : Bytes)
    → build_packet type message_id session_id body
      ≡ header_bytes type message_id session_id (length body) ++ body
unfolding build_packet append_bytes htons_bytes htonl_bytes
build_packet-append type message_id session_id body =
    ap (λ t. header_bytes type message_id session_id (length body) ++ t)
      (take-all (length body) body (omega arith))

type_code-lt : (t : PacketType) → type_code t < 2 ^ 16
type_code-lt Packet.connect_request = omega arith
type_code-lt _ = omega arith

-- The header of a built packet, when the identifiers have 32 bits and the body fits its length.
pub parse_header-build_packet :
    (type : PacketType) (message_id session_id : ℕ) (body rest : Bytes)
    → IsU32 message_id
    → IsU32 session_id
    → length body < 2 ^ 16
    → parse_header (build_packet type message_id session_id body ++ rest)
      ≡ some (record {
        type = type_code type;
        message_id = message_id;
        session_id = session_id;
        message_len = length body;
      })
unfolding parse_header htons_bytes htonl_bytes
parse_header-build_packet type message_id session_id body rest hm hs hb =
    rw (build_packet-append type message_id session_id body) (ground (arith, type_code-lt type))
