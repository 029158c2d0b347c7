-- ===== src/Wire/Bytes/Laws.antt =====
-- Each reader takes back what its writer appended.
use cvcn.Common.{
  ℕ, ◌%◌, ◌^◌, ◌≤◌, ◌<◌, ◌≡◌, refl, arith, [], ◌∷◌, ◌++◌, length, take, le→ltb, length-append,
  take-append, drop-append, take-all, drop-all, append_assoc, append-nil,
}
use cvcn.Wire.Bytes.{
  Bytes, htons_bytes, htonl_bytes, read_uint8, read_uint16_be, read_uint32_be, read_chars,
  read_string, append_bytes, write_uint8, write_uint16_be, write_uint32_be, write_string,
}

-- What a string becomes on the wire.
unfoldable pub string_bytes : Bytes → Bytes
string_bytes s = htons_bytes (length s % 2 ^ 16) ++ take (length s % 2 ^ 16) s

-- A string whose length the 16-bit prefix can hold.
abbrev pub IsShort : Bytes → Type 0
IsShort s = length s < 2 ^ 16

pub write_uint8-append : (buf : Bytes) (v : ℕ) → write_uint8 buf v ≡ buf ++ (v % 256) ∷ []
unfolding write_uint8 append_bytes
write_uint8-append buf v = refl

pub write_uint16_be-append : (buf : Bytes) (v : ℕ) → write_uint16_be buf v ≡ buf ++ htons_bytes v
unfolding write_uint16_be append_bytes htons_bytes
write_uint16_be-append buf v = refl

pub write_uint32_be-append : (buf : Bytes) (v : ℕ) → write_uint32_be buf v ≡ buf ++ htonl_bytes v
unfolding write_uint32_be append_bytes htonl_bytes
write_uint32_be-append buf v = refl

pub write_string-append : (buf s : Bytes) → write_string buf s ≡ buf ++ string_bytes s
unfolding write_string append_bytes write_uint16_be htons_bytes string_bytes
write_string-append buf s = append_assoc buf (htons_bytes (length s % 2 ^ 16)) _

pub ruleset writers =
    (write_uint8-append, write_uint16_be-append, write_uint32_be-append, write_string-append)

pub read_uint8-bytes : (v : ℕ) (rest : Bytes) → v < 256 → read_uint8 ((v % 256) ∷ rest) ≡ (v, rest)
unfolding read_uint8
read_uint8-bytes v rest h = ground arith

pub read_uint16_be-bytes :
    (v : ℕ) (rest : Bytes) → v < 2 ^ 16 → read_uint16_be (htons_bytes v ++ rest) ≡ (v, rest)
unfolding read_uint16_be htons_bytes
read_uint16_be-bytes v rest h = ground arith

pub read_uint32_be-bytes :
    (v : ℕ) (rest : Bytes) → v < 2 ^ 32 → read_uint32_be (htonl_bytes v ++ rest) ≡ (v, rest)
unfolding read_uint32_be htonl_bytes
read_uint32_be-bytes v rest h = ground arith

pub read_chars-append : (s rest : Bytes) → read_chars (length s) (s ++ rest) ≡ (s, rest)
unfolding read_chars
read_chars-append s rest =
    let fits : length s ≤ length (s ++ rest) = omega (arith, length-append s rest) in
    rw (le→ltb (length (s ++ rest)) (length s) fits) (
      ground (
        arith,
        take-append (length s) s rest,
        take-all (length s) s,
        drop-append (length s) s rest,
        drop-all (length s) s,
      ))

pub read_string-bytes :
    (s rest : Bytes) → IsShort s → read_string (string_bytes s ++ rest) ≡ (s, rest)
unfolding read_string string_bytes
read_string-bytes s rest h =
    let same : length s % 2 ^ 16 ≡ length s = omega arith in
    rw same (
      rw (take-all (length s) s (omega arith), append_assoc)
        (rw (read_uint16_be-bytes (length s) (s ++ rest) h) (read_chars-append s rest)))

-- The same at the end of the input.
pub read_string-bytes_end : (s : Bytes) → IsShort s → read_string (string_bytes s) ≡ (s, [])
read_string-bytes_end s h = rw append-nil at (read_string-bytes s [] h)
