-- ===== src/Validator.antt =====
-- server/utils/Validator.h and Validator.cpp, and the limits of config/AppConfig.h. The client's
-- copies are the same. A `char` is the byte; the letters, digits and signs are below 128, where
-- `char` and `unsigned char` agree.
pub mod Spec
use cvcn.Common.{
  ℕ, ◌+◌, Bool, true, false, not, ◌&&◌, ◌||◌, List, [], ◌∷◌, length, ltb, leb, ◌==◌, if◌then◌else◌,
}
use cvcn.Wire.Bytes.{Bytes}

abbrev pub max_username_length : ℕ
max_username_length = 64

abbrev pub max_password_length : ℕ
max_password_length = 127

abbrev pub max_message_length : ℕ
max_message_length = 4096

-- `config::MAX_REASONABLE_PACKET_BODY`
abbrev pub max_reasonable_packet_body : ℕ
max_reasonable_packet_body = max_message_length + 1024

unfoldable pub is_credential_char : ℕ → Bool
is_credential_char c =
    if leb b'a' c && leb c b'z'
    then true
    else if leb b'A' c && leb c b'Z'
    then true
    else if leb b'0' c && leb c b'9'
    then true
    else (c == b'-' || c == b'_' || c == b'!' || c == b'@' || c == b'^' || c == b'?')

unfoldable pub is_message_char : ℕ → Bool
is_message_char c = if c == 0x0A then true else if ltb c 0x20 || c == 0x7F then false else true

-- `for (char symbol : s) if (!test(symbol)) return false;` and `return true`.
unfoldable pub every : (ℕ → Bool) → Bytes → Bool
every test [] = true
every test (c ∷ cs) = if not (test c) then false else every test cs

-- The tests on the length, then the loop.
unfoldable pub validate : ℕ → (ℕ → Bool) → Bytes → Bool
validate limit test s = if length s == 0 || ltb limit (length s) then false else every test s

unfoldable pub validate_username : Bytes → Bool
validate_username username = validate max_username_length is_credential_char username

unfoldable pub validate_password : Bytes → Bool
validate_password password = validate max_password_length is_credential_char password

unfoldable pub validate_message : Bytes → Bool
validate_message message = validate max_message_length is_message_char message

unfoldable pub validate_chat_id : ℕ → Bool
validate_chat_id chat_id = ltb 0 chat_id
