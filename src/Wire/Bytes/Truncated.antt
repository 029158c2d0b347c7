-- ===== src/Wire/Bytes/Truncated.antt =====
-- What the readers make of a string or a number of which bytes are missing.
use cvcn.Common.{
  ℕ, zero, suc, ◌+◌, ◌-◌, ◌%◌, ◌^◌, ◌≤◌, ◌<◌, ◌≡◌, refl, ap, subst, ◌∙◌, arith, [], ◌∷◌, ◌++◌,
  length, take, lt→ltb, length-take,
}
use cvcn.Wire.Bytes.{
  Bytes, htons_bytes, htonl_bytes, read_uint16_be, read_uint32_be, read_chars, read_string,
}
use cvcn.Wire.Bytes.Laws.{IsShort, string_bytes, read_string-bytes}

pub take-behind :
    (n : ℕ) (xs ys : Bytes) → length xs ≤ n → take n (xs ++ ys) ≡ xs ++ take (n - length xs) ys
take-behind n [] ys h = ap (λ k. take k ys) (omega arith)
take-behind zero (x ∷ xs) ys h = absurd (omega (arith, h))
take-behind (suc n) (x ∷ xs) ys h =
    ap (λ t. x ∷ t) (take-behind n xs ys (omega (arith, h)))
    ∙ ap (λ k. x ∷ (xs ++ take k ys)) (omega arith)

read_chars-missing : (n : ℕ) (cursor : Bytes) → length cursor < n → (read_chars n cursor).0 ≡ []
unfolding read_chars
read_chars-missing n cursor h = rw (lt→ltb (length cursor) n h) refl

pub length-string_bytes : (s : Bytes) → IsShort s → length (string_bytes s) ≡ 2 + length s
unfolding string_bytes htons_bytes
length-string_bytes s h = omega (arith, h, length-take (length s % 2 ^ 16) s)

-- A string whose last byte is missing is read as the empty string.
pub read_string-cut :
    (n : ℕ) (s rest : Bytes)
    → IsShort s
    → n < 2 + length s
    → (read_string (take n (string_bytes s ++ rest))).0 ≡ []
unfolding read_string read_uint16_be read_chars string_bytes htons_bytes
read_string-cut zero s rest h cut = refl
read_string-cut (suc zero) s rest h cut = refl
read_string-cut (suc (suc k)) s rest h cut =
    let size : ℕ = length s % 2 ^ 16 in
    let left : Bytes = take k (take size s ++ rest) in
    subst (λ m. (read_chars m left).0 ≡ []) (omega (arith, h))
      (read_chars-missing (length s) left (omega (arith, cut, length-take k (take size s ++ rest))))

-- A string that is there is read, and what is left of the rest is read on.
pub read_string-behind :
    (n : ℕ) (s rest : Bytes)
    → IsShort s
    → 2 + length s ≤ n
    → read_string (take n (string_bytes s ++ rest)) ≡ (s, take (n - (2 + length s)) rest)
read_string-behind n s rest h there =
    rw
      (
        take-behind n (string_bytes s) rest (omega (arith, there, length-string_bytes s h)),
        length-string_bytes s h,
      )
      (read_string-bytes s (take (n - (2 + length s)) rest) h)

-- A number whose last byte is missing is read as 0 and nothing is taken.
pub read_uint32_be-cut :
    (n v : ℕ) (rest : Bytes) → n < 4 → (read_uint32_be (take n (htonl_bytes v ++ rest))).0 ≡ 0
unfolding read_uint32_be htonl_bytes
read_uint32_be-cut zero v rest cut = refl
read_uint32_be-cut (suc zero) v rest cut = refl
read_uint32_be-cut (suc (suc zero)) v rest cut = refl
read_uint32_be-cut (suc (suc (suc zero))) v rest cut = refl
read_uint32_be-cut (suc (suc (suc (suc n)))) v rest cut = absurd (omega (arith, cut))
