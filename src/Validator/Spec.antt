-- ===== src/Validator/Spec.antt =====
-- What the validator accepts, said without the code.
use cvcn.Common.{
  ℕ, ◌≤◌, ◌<◌, ◌≡◌, ◌≢◌, ◌↔◌, ◌⊎◌, inl, inr, arith, refl, Bool, true, [], ◌∷◌, length, All,
  Bool-cases,
}
use cvcn.Wire.Bytes.{Bytes}
use cvcn.Validator.{
  max_username_length, max_password_length, max_message_length, is_credential_char, is_message_char,
  every, validate, validate_username, validate_password, validate_message,
}

-- Latin letters, digits, and the signs - _ ! @ ^ ?
abbrev pub IsCredentialChar : ℕ → Type 0
IsCredentialChar c =
    ((b'a' ≤ c) × (c ≤ b'z'))
    ⊎ ((b'A' ≤ c) × (c ≤ b'Z'))
    ⊎ ((b'0' ≤ c) × (c ≤ b'9'))
    ⊎ (c ≡ b'-')
    ⊎ (c ≡ b'_')
    ⊎ (c ≡ b'!')
    ⊎ (c ≡ b'@')
    ⊎ (c ≡ b'^')
    ⊎ (c ≡ b'?')

-- The line feed, and every byte from 0x20 on but DEL.
abbrev pub IsMessageChar : ℕ → Type 0
IsMessageChar c = (c ≡ 0x0A) ⊎ ((0x20 ≤ c) × (c ≢ 0x7F))

is_credential_char_iff : (c : ℕ) → (is_credential_char c ≡ true) ↔ IsCredentialChar c
unfolding is_credential_char
is_credential_char_iff c = (λ h. ground arith, λ h. ground arith)

is_message_char_iff : (c : ℕ) → (is_message_char c ≡ true) ↔ IsMessageChar c
unfolding is_message_char
is_message_char_iff c = (λ h. ground arith, λ h. ground arith)

module _ (test : ℕ → Bool) (P : ℕ → Type 0) (exact : (c : ℕ) → (test c ≡ true) ↔ P c) where
  every→All : (s : Bytes) → every test s ≡ true → All P s
  unfolding every
  every→All [] h = tt
  every→All (c ∷ cs) h = elim (Bool-cases (test c)) [
    | inl e ↦ ((exact c).0 e, every→All cs (rw e at h))
    | inr e ↦ cc
  ]

  All→every : (s : Bytes) → All P s → every test s ≡ true
  unfolding every
  All→every [] h = refl
  All→every (c ∷ cs) h = rw ((exact c).1 h.0) (All→every cs h.1)

  validate_iff :
      (limit : ℕ) (s : Bytes)
      → (validate limit test s ≡ true) ↔ ((0 < length s) × (length s ≤ limit) × All P s)
  unfolding validate
  validate_iff limit s = (
    λ h. (ground arith, ground arith, every→All s (ground arith)),
    λ h. ground (arith, All→every s h.2),
  )

-- A user name passes exactly when it has 1 to 64 bytes, each a letter, a digit or one of - _ ! @ ^ ?
pub validate_username_iff :
    (s : Bytes)
    → (validate_username s ≡ true)
      ↔ ((0 < length s) × (length s ≤ max_username_length) × All IsCredentialChar s)
unfolding validate_username
validate_username_iff s = validate_iff _ _ is_credential_char_iff max_username_length s

pub validate_password_iff :
    (s : Bytes)
    → (validate_password s ≡ true)
      ↔ ((0 < length s) × (length s ≤ max_password_length) × All IsCredentialChar s)
unfolding validate_password
validate_password_iff s = validate_iff _ _ is_credential_char_iff max_password_length s

-- A message passes exactly when it has 1 to 4096 bytes, each a line feed or a byte from 0x20 on that
-- is not DEL; the tab, which the header file allows, is refused with the other control bytes.
pub validate_message_iff :
    (s : Bytes)
    → (validate_message s ≡ true)
      ↔ ((0 < length s) × (length s ≤ max_message_length) × All IsMessageChar s)
unfolding validate_message
validate_message_iff s = validate_iff _ _ is_message_char_iff max_message_length s
