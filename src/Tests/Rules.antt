-- ===== src/Tests/Rules.antt =====
-- Runs of the input rules and of the registry.
use cvcn.Common.{ℕ, ◌<◌, ◌≤◌, ◌≡◌, true, [], ◌∷◌, length, All, ◌↔◌}
use cvcn.Common.Dict.{Dict}
use cvcn.Wire.Bytes.{Bytes}
use cvcn.Validator.{max_message_length, validate_message}
use cvcn.Validator.Spec.{IsMessageChar, validate_message_iff}

abbrev name : Bytes
name = b'a' ∷ b'_' ∷ b'1' ∷ []

-- A tab between two letters.
abbrev tabbed : Bytes
tabbed = b'a' ∷ 9 ∷ b'b' ∷ []

validate_message_iff_example :
    (validate_message tabbed ≡ true)
    ↔ ((0 < length tabbed) × (length tabbed ≤ max_message_length) × All IsMessageChar tabbed)
validate_message_iff_example = validate_message_iff tabbed

abbrev two_users : Dict ℕ
two_users = (3, 11) ∷ (4, 12) ∷ []
