-- ===== src/Server/Truncated.antt =====
-- A request of which bytes are missing reaches no handler: the readers of
-- server/protocol/PacketParser.cpp make an empty string or 0 of what is missing, and the rules of
-- server/protocol/PacketDispatcher.cpp refuse that.
use cvcn.Common.{
  ℕ, ◌+◌, ◌-◌, ◌<◌, ◌≡◌, refl, ap, ◌∙◌, arith, inl, inr, Bool, true, false, not, ◌||◌, [], ◌++◌,
  length, take, ltb, Bool-cases, append-nil, length-append,
}
use cvcn.Wire.Bytes.{Bytes, htonl_bytes, read_string, write_string, read_uint32_be}
use cvcn.Wire.Bytes.Laws.{IsShort, string_bytes, write_string-append, write_uint32_be-append}
use cvcn.Wire.Bytes.Truncated.{
  take-behind, read_string-cut, read_string-behind, read_uint32_be-cut, length-string_bytes,
}
use cvcn.Wire.Packet
use cvcn.Wire.Packet.{type_code, PacketHeaderRaw, Payload, Credentials, MessageSendData}
use cvcn.Wire.Builder.{type_of, body_of, write_credentials}
use cvcn.Wire.Parser.{read_credentials, parse_credentials, parse_name, parse_message_send}
use cvcn.Wire.RoundTrip.{Fits, FitsCredentials}
use cvcn.Validator.{
  validate_username, validate, validate_password, validate_message, validate_chat_id,
}
use cvcn.Server.{Repositories, M, pure}
use cvcn.Server.Dispatcher.{
  route, bad_credentials, bad_query, bad_message, checked, handle, dispatch,
}

or-true : (b : Bool) → (b || true) ≡ true
or-true true = refl
or-true false = refl

no_username :
    (password : Bytes) → bad_credentials (record { username = []; password = password }) ≡ true
unfolding bad_credentials validate_username validate
no_username password = refl

no_password :
    (username : Bytes) → bad_credentials (record { username = username; password = [] }) ≡ true
unfolding bad_credentials validate_password validate
no_password username = or-true _

no_text : (d : MessageSendData) → d.text ≡ [] → bad_message d ≡ true
unfolding bad_message validate_message validate
no_text d e = rw e (or-true _)

no_chat_id : (text : Bytes) → bad_message (record { chat_id = 0; text = text }) ≡ true
unfolding bad_message validate_chat_id
no_chat_id text = refl

no_query : bad_query [] ≡ true
unfolding bad_query
no_query = refl

no_name : not (validate_username []) ≡ true
unfolding validate_username validate
no_name = refl

checked-bad :
    {Db A : Type 0} (r : Bool × A) (bad : A → Bool) (use_it : A → M Db (Unit {0}))
    → bad r.1 ≡ true
    → checked r bad use_it ≡ pure tt
unfolding checked
checked-bad (true, a) bad use_it e = rw e refl
checked-bad (false, a) bad use_it e = refl

string-cut :
    (n : ℕ) (s : Bytes)
    → IsShort s
    → n < 2 + length s
    → (read_string (take n (string_bytes s))).0 ≡ []
string-cut n s short cut = rw append-nil at (read_string-cut n s [] short cut)

credentials-cut :
    (n : ℕ) (c : Credentials)
    → FitsCredentials c
    → n < length (write_credentials [] c)
    → bad_credentials (parse_credentials (take n (write_credentials [] c))).1 ≡ true
unfolding parse_credentials read_credentials write_credentials
credentials-cut n c (short_u, short_p) cut =
    let written : write_credentials [] c ≡ string_bytes c.username ++ string_bytes c.password =
      write_string-append _ c.password ∙ rw (write_string-append [] c.username) refl in
    let size : length (write_credentials [] c) ≡ 2 + length c.username + (2 + length c.password) =
      rw (written, length-append)
        (omega (
          arith,
          length-string_bytes c.username short_u,
          length-string_bytes c.password short_p,
        )) in
    rw written (elim (Bool-cases (ltb n (2 + length c.username))) [
      | inl within ↦
          rw (read_string-cut n c.username (string_bytes c.password) short_u (ground arith))
            (no_username _)
      | inr behind ↦
          rw (read_string-behind n c.username (string_bytes c.password) short_u (ground arith)) (
            rw
              (string-cut (n - (2 + length c.username)) c.password short_p
                (omega (arith, cut, size)))
              (no_password c.username))
    ])

name-cut :
    (n : ℕ) (s : Bytes)
    → IsShort s
    → n < length (write_string [] s)
    → (parse_name (take n (write_string [] s))).1 ≡ []
unfolding parse_name
name-cut n s short cut = rw (write_string-append [] s) (
    string-cut n s short
      (omega (arith, cut, ap length (write_string-append [] s), length-string_bytes s short)))

message-cut :
    (n : ℕ) (d : MessageSendData)
    → Fits (Packet.message_send_data d)
    → n < length (body_of (Packet.message_send_data d))
    → bad_message (parse_message_send (take n (body_of (Packet.message_send_data d)))).1 ≡ true
unfolding parse_message_send body_of htonl_bytes read_uint32_be
message-cut n d (u32, short) cut =
    let written : body_of (Packet.message_send_data d)
        ≡ htonl_bytes d.chat_id ++ string_bytes d.text =
      write_string-append _ d.text ∙ rw (write_uint32_be-append [] d.chat_id) refl in
    let size : length (body_of (Packet.message_send_data d)) ≡ 4 + (2 + length d.text) =
      rw written (omega (arith, length-string_bytes d.text short)) in
    rw written (elim (Bool-cases (ltb n 4)) [
      | inl within ↦
          rw (read_uint32_be-cut n d.chat_id (string_bytes d.text) (ground arith)) (no_chat_id _)
      | inr behind ↦
          rw (take-behind n (htonl_bytes d.chat_id) (string_bytes d.text) (ground arith))
            (no_text _ (string-cut (n - 4) d.text short (omega (arith, cut, size))))
    ])

module _ {Db : Type 0} (repo : Repositories Db) where
  -- A body that ends before the last byte of what the client builds from a payload that fits the
  -- wire format is refused: its dispatch calls no handler, changes nothing and answers nothing.
  pub dispatch-truncated :
      (p : Payload) (header : PacketHeaderRaw) (session n : ℕ)
      → Fits p
      → header.type ≡ type_code (type_of p)
      → n < length (body_of p)
      → dispatch repo header (take n (body_of p)) session ≡ pure tt
  unfolding dispatch handle route type_of body_of
  dispatch-truncated p header session n fits same cut =
      ap (λ t. handle repo (route t) header (take n (body_of p)) session) same ∙ by_type p fits cut
    where
      by_type :
          (p : Payload)
          → Fits p
          → n < length (body_of p)
          → handle repo (route (type_code (type_of p))) header (take n (body_of p)) session
            ≡ pure tt
      by_type (Packet.register_request_data c) fits cut =
          checked-bad _ bad_credentials _ (credentials-cut n c fits cut)
      by_type (Packet.auth_request_data c) fits cut =
          checked-bad _ bad_credentials _ (credentials-cut n c fits cut)
      by_type (Packet.delete_request_data c) fits cut =
          checked-bad _ bad_credentials _ (credentials-cut n c fits cut)
      by_type (Packet.find_user_request_data query) fits cut =
          checked-bad _ bad_query _ (rw (name-cut n query fits cut) no_query)
      by_type (Packet.create_chat_request_data peer) fits cut =
          checked-bad _ (λ peer. not (validate_username peer)) _
            (rw (name-cut n peer fits cut) no_name)
      by_type (Packet.message_send_data d) fits cut =
          checked-bad _ bad_message _ (message-cut n d fits cut)
      by_type Packet.connect_request_data fits cut = absurd (omega (arith, cut))
      by_type Packet.disconnect_request_data fits cut = absurd (omega (arith, cut))
      by_type Packet.chat_list_request_data fits cut = absurd (omega (arith, cut))
      by_type _ fits cut = refl
