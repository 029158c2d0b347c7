-- ===== src/Wire/Bytes.antt =====
-- server/utils/ByteReader.cpp and server/utils/ByteWriter.cpp (the client's copies are the same
-- text). A byte is a number below 256, a `std::string` and a `std::vector<uint8_t>` are lists of
-- bytes, and a reader's cursor with its count of remaining bytes is the list of those bytes.
pub mod Laws
pub mod Truncated
use cvcn.Common.{
  ℕ, ◌+◌, ◌*◌, ◌/◌, ◌%◌, ◌^◌, ◌<◌, List, [], ◌∷◌, ◌++◌, length, take, drop, ltb, if◌then◌else◌,
}

abbrev pub Bytes : Type 0
Bytes = List ℕ

-- What a reader leaves: the value it returned and the bytes behind the cursor.
abbrev pub Read : Type 0 → Type 0
Read A = A × Bytes

-- The network order of a 16-bit and of a 32-bit number.
unfoldable pub htons_bytes : ℕ → Bytes
htons_bytes v = (v / 256 % 256) ∷ (v % 256) ∷ []

unfoldable pub htonl_bytes : ℕ → Bytes
htonl_bytes v = (v / 2 ^ 24 % 256) ∷ (v / 2 ^ 16 % 256) ∷ (v / 256 % 256) ∷ (v % 256) ∷ []

abbrev pub ntohs_bytes : ℕ → ℕ → ℕ
ntohs_bytes a b = a * 256 + b

abbrev pub ntohl_bytes : ℕ → ℕ → ℕ → ℕ → ℕ
ntohl_bytes a b c d = ((a * 256 + b) * 256 + c) * 256 + d

-- Each reader returns 0 and moves nothing if too few bytes remain.
unfoldable pub read_uint8 : Bytes → Read ℕ
read_uint8 [] = (0, [])
read_uint8 (a ∷ rest) = (a, rest)

unfoldable pub read_uint16_be : Bytes → Read ℕ
read_uint16_be (a ∷ b ∷ rest) = (ntohs_bytes a b, rest)
read_uint16_be cursor = (0, cursor)

unfoldable pub read_uint32_be : Bytes → Read ℕ
read_uint32_be (a ∷ b ∷ c ∷ d ∷ rest) = (ntohl_bytes a b c d, rest)
read_uint32_be cursor = (0, cursor)

-- The bytes of a string whose length is already read.
unfoldable pub read_chars : ℕ → Bytes → Read Bytes
read_chars n cursor = if ltb (length cursor) n then ([], cursor) else (take n cursor, drop n cursor)

unfoldable pub read_string : Bytes → Read Bytes
read_string cursor = let (n, rest) = read_uint16_be cursor in read_chars n rest

-- `appendBytes(dest, src, count)` copies `count` bytes, which `src` has.
unfoldable pub append_bytes : Bytes → Bytes → ℕ → Bytes
append_bytes dest src count = dest ++ take count src

unfoldable pub write_uint8 : Bytes → ℕ → Bytes
write_uint8 buffer value = append_bytes buffer ((value % 256) ∷ []) 1

unfoldable pub write_uint16_be : Bytes → ℕ → Bytes
write_uint16_be buffer value = append_bytes buffer (htons_bytes value) 2

unfoldable pub write_uint32_be : Bytes → ℕ → Bytes
write_uint32_be buffer value = append_bytes buffer (htonl_bytes value) 4

-- `static_cast<uint16_t>(str.size())`
unfoldable pub write_string : Bytes → Bytes → Bytes
write_string buffer str =
    let n = length str % 2 ^ 16 in append_bytes (write_uint16_be buffer n) str n
