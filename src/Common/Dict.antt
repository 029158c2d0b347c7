-- ===== src/Common/Dict.antt =====
-- Maps with number keys (`std::unordered_map<int, V>`), as association lists with one entry a key.
use cvcn.Common.Tests.{◌==◌, if◌then◌else◌, ==_refl, Bool-cases}
use cvcn.Common.Lists.{All}
use Prim.Native.Nat.{ℕ, ◌+◌, ◌≤◌, ◌<◌}
use mathlib.Core.Logic.{inl, inr}
use mathlib.Core.Path.{◌≡◌, refl}
use mathlib.Core.Option.{Option, none, some}
use mathlib.Core.List.{List, [], ◌∷◌}
use native.Mathlib.Omega.{arith}

abbrev pub Dict {ℓ} : Type ℓ → Type ℓ
Dict V = List (ℕ × V)

module _ {ℓ} {V : Type ℓ} where
  -- `find`
  unfoldable pub lookup : ℕ → Dict V → Option V
  lookup key [] = none
  lookup key (entry ∷ rest) = if entry.0 == key then some entry.1 else lookup key rest

  -- `operator[]` with an assignment
  unfoldable pub insert : ℕ → V → Dict V → Dict V
  insert key value [] = (key, value) ∷ []
  insert key value (entry ∷ rest) =
      if entry.0 == key then (key, value) ∷ rest else entry ∷ insert key value rest

  unfoldable pub erase : ℕ → Dict V → Dict V
  erase key [] = []
  erase key (entry ∷ rest) =
      let kept = erase key rest in if entry.0 == key then kept else entry ∷ kept

  pub lookup-insert :
      (key k : ℕ) (value : V) (d : Dict V)
      → lookup k (insert key value d) ≡ (if key == k then some value else lookup k d)
  unfolding lookup insert
  lookup-insert key k value [] = refl
  lookup-insert key k value (entry ∷ rest) = ground (arith, lookup-insert key k value rest)

  pub lookup-erase :
      (key k : ℕ) (d : Dict V) → lookup k (erase key d) ≡ (if key == k then none else lookup k d)
  unfolding lookup erase
  lookup-erase key k [] = ground arith
  lookup-erase key k (entry ∷ rest) = ground (arith, lookup-erase key k rest)

pub ruleset dict_laws = (lookup-insert, lookup-erase)

module _ {ℓ} {V : Type ℓ} where
  -- How many entries the key has.
  abbrev pub count_key : ℕ → Dict V → ℕ
  count_key key [] = 0
  count_key key (entry ∷ rest) = (if entry.0 == key then 1 else 0) + count_key key rest

  -- One entry a key.
  abbrev pub IsKeyed : Dict V → Type 0
  IsKeyed d = (key : ℕ) → count_key key d ≤ 1

  count_key-insert :
      (key k : ℕ) (value : V) (d : Dict V)
      → count_key k (insert key value d)
        ≡ (if key == k then (if count_key k d == 0 then 1 else count_key k d) else count_key k d)
  unfolding insert
  count_key-insert key k value [] = ground arith
  count_key-insert key k value (entry ∷ rest) = ground (arith, count_key-insert key k value rest)

  count_key-erase :
      (key k : ℕ) (d : Dict V) → count_key k (erase key d) ≡ (if key == k then 0 else count_key k d)
  unfolding erase
  count_key-erase key k [] = ground arith
  count_key-erase key k (entry ∷ rest) = ground (arith, count_key-erase key k rest)

  pub insert-IsKeyed : (key : ℕ) (value : V) (d : Dict V) → IsKeyed d → IsKeyed (insert key value d)
  insert-IsKeyed key value d h k = ground (arith, count_key-insert key k value d, h k)

  pub erase-IsKeyed : (key : ℕ) (d : Dict V) → IsKeyed d → IsKeyed (erase key d)
  erase-IsKeyed key d h k = ground (arith, count_key-erase key k d, h k)

  count_key-lookup :
      (key : ℕ) (value : V) (d : Dict V) → lookup key d ≡ some value → 0 < count_key key d
  unfolding lookup
  count_key-lookup key value [] e = absurd (cc)
  count_key-lookup key value (entry ∷ rest) e = elim (Bool-cases (entry.0 == key)) [
    | inl same ↦ ground arith
    | inr other ↦ ground (arith, count_key-lookup key value rest)
  ]

  -- With one entry a key, what holds of every key with its value holds of every entry.
  pub IsKeyed-All {κ} :
      (P : ℕ → V → Type κ) (d : Dict V)
      → IsKeyed d
      → ((key : ℕ) (value : V) → lookup key d ≡ some value → P key value)
      → All (λ entry. P entry.0 entry.1) d
  unfolding lookup
  IsKeyed-All P [] once h = tt
  IsKeyed-All P ((key, value) ∷ rest) once h = (
    h key value (rw (==_refl key) refl),
    IsKeyed-All P rest (λ k. omega (arith, once k))
        λ k v e. h k v (elim (Bool-cases (key == k)) [
          | inl same ↦ absurd (ground (arith, once k, count_key-lookup k v rest e))
          | inr other ↦ rw other e
        ]),
  )
