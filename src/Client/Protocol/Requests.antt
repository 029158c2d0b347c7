-- ===== src/Client/Protocol/Requests.antt =====
-- What the client asks is what the server's handlers are called with.
use cvcn.Common.{
  ℕ, ◌≡◌, refl, ap, ◌∙◌, arith, Bool, true, false, not, [], if◌then◌else◌, Bool-cases, inl, inr,
}
use cvcn.Wire.Bytes.{Bytes, write_string, write_uint32_be}
use cvcn.Wire.Bytes.Laws.{IsShort}
use cvcn.Wire.Packet
use cvcn.Wire.Packet.{PacketType, type_code, PacketHeaderRaw, Payload, Credentials, MessageSendData}
use cvcn.Wire.Builder.{type_of, body_of, write_credentials}
use cvcn.Wire.Parser.{parse_data, parse_credentials, parse_name, parse_message_send}
use cvcn.Wire.RoundTrip.{Fits, FitsCredentials, parse_data-body_of}
use cvcn.Validator.{validate_username}
use cvcn.Server.{Repositories, M, pure, request_close}
use cvcn.Server.Services.{
  handle_register_request, handle_auth_request, handle_delete_request, handle_find_user_request,
  handle_create_chat_request, handle_chat_list_request, handle_message_send,
}
use cvcn.Server.Dispatcher.{
  route, bad_credentials, bad_query, bad_message, checked, handle_connect_request, handle, dispatch,
}

-- What the server accepts as a request.
abbrev pub accepted : Payload → Bool
accepted Packet.connect_request_data = true
accepted Packet.disconnect_request_data = true
accepted (Packet.register_request_data c) = not (bad_credentials c)
accepted (Packet.auth_request_data c) = not (bad_credentials c)
accepted (Packet.delete_request_data c) = not (bad_credentials c)
accepted (Packet.find_user_request_data query) = not (bad_query query)
accepted (Packet.create_chat_request_data peer) = validate_username peer
accepted Packet.chat_list_request_data = true
accepted (Packet.message_send_data d) = not (bad_message d)
accepted _ = false

parse_credentials-written :
    (c : Credentials) → FitsCredentials c → parse_credentials (write_credentials [] c) ≡ (true, c)
unfolding parse_data type_of body_of
parse_credentials-written c fits =
    ground (arith, parse_data-body_of (Packet.auth_request_data c) fits)

parse_name-written : (s : Bytes) → IsShort s → parse_name (write_string [] s) ≡ (true, s)
unfolding parse_data type_of body_of
parse_name-written s fits =
    ground (arith, parse_data-body_of (Packet.find_user_request_data s) fits)

parse_message_send-written :
    (d : MessageSendData)
    → Fits (Packet.message_send_data d)
    → parse_message_send (write_string (write_uint32_be [] d.chat_id) d.text) ≡ (true, d)
unfolding parse_data type_of body_of
parse_message_send-written d fits =
    ground (arith, parse_data-body_of (Packet.message_send_data d) fits)

not-not : (b : Bool) → not (not b) ≡ b
not-not true = refl
not-not false = refl

checked-not :
    {Db A : Type 0} (r : Bool × A) (a : A) (bad : A → Bool) (use_it : A → M Db (Unit {0}))
    → r ≡ (true, a)
    → checked r bad use_it ≡ (if not (bad a) then use_it a else pure tt)
unfolding checked
checked-not r a bad use_it e =
    rw (e, checked) (elim (Bool-cases (bad a)) [ inl p ↦ rw p refl | inr p ↦ rw p refl ])

module _ {Db : Type 0} (repo : Repositories Db) where
  -- The handler of a request.
  abbrev pub served : Payload → PacketHeaderRaw → ℕ → M Db (Unit {0})
  served Packet.connect_request_data header session = handle_connect_request repo header session
  served Packet.disconnect_request_data header session = request_close session
  served (Packet.register_request_data c) header session =
      handle_register_request repo header c session
  served (Packet.auth_request_data c) header session = handle_auth_request repo header c session
  served (Packet.delete_request_data c) header session = handle_delete_request repo header c session
  served (Packet.find_user_request_data query) header session =
      handle_find_user_request repo header query session
  served (Packet.create_chat_request_data peer) header session =
      handle_create_chat_request repo header peer session
  served Packet.chat_list_request_data header session = handle_chat_list_request repo header session
  served (Packet.message_send_data d) header session = handle_message_send repo d session
  served _ header session = pure tt

  -- A body that was built from a payload that fits is dispatched to the payload's handler if the
  -- rules accept it, and changes nothing else.
  pub dispatch-served :
      (p : Payload) (header : PacketHeaderRaw) (session : ℕ)
      → Fits p
      → header.type ≡ type_code (type_of p)
      → dispatch repo header (body_of p) session
        ≡ (if accepted p then served p header session else pure tt)
  unfolding dispatch handle route type_of body_of
  dispatch-served p header session fits same =
      ap (λ t. handle repo (route t) header (body_of p) session) same ∙ by_type p fits
    where
      by_type :
          (p : Payload)
          → Fits p
          → handle repo (route (type_code (type_of p))) header (body_of p) session
            ≡ (if accepted p then served p header session else pure tt)
      by_type (Packet.register_request_data c) fits =
          checked-not _ c bad_credentials _ (parse_credentials-written c fits)
      by_type (Packet.auth_request_data c) fits =
          checked-not _ c bad_credentials _ (parse_credentials-written c fits)
      by_type (Packet.delete_request_data c) fits =
          checked-not _ c bad_credentials _ (parse_credentials-written c fits)
      by_type (Packet.find_user_request_data query) fits =
          checked-not _ query bad_query _ (parse_name-written query fits)
      by_type (Packet.create_chat_request_data peer) fits =
          checked-not _ peer _ _ (parse_name-written peer fits) ∙ rw not-not refl
      by_type (Packet.message_send_data d) fits =
          checked-not _ d bad_message _ (parse_message_send-written d fits)
      by_type _ fits = refl
