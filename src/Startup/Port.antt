-- ===== src/Startup/Port.antt =====
-- The port that promptForPort returns.
use cvcn.Common.{
  ◌≤◌, ◌≡◌, ◌⊎◌, refl, inl, inr, arith, true, false, List, [], ◌∷◌, Option, none, some, if_rule,
  Option-cases,
}
use cvcn.Wire.Bytes.{Bytes}
use cvcn.Storage.{ℤ, pos, negsuc, minus_one}
use cvcn.Storage.Laws.{Has, at_head, behind}
use cvcn.Startup.{
  Round, Prompt, returns, exits, asks_again, is_port_free, is_in_range, free_port, read_port,
  choose_port, prompt_for_port,
}

abbrev pub IsPort : ℤ → Type 0
IsPort (pos n) = (1 ≤ n) × (n ≤ 65535)
IsPort (negsuc n) = ⊥

-- What the result says of the rounds.
abbrev pub Tells : List Round → Prompt → Type 0
Tells rounds (returns z) =
    ((z ≡ minus_one) × ((r : Round) × Has r rounds × (r.requested ≡ true)))
    ⊎ (IsPort z × ((r : Round) × Has r rounds × (r.requested ≡ false) × (is_port_free r z ≡ true)))
Tells rounds exits = (r : Round) × Has r rounds × (r.requested ≡ false) × (r.line ≡ none)
Tells rounds asks_again = (r : Round) → Has r rounds → r.requested ≡ false

calm_round :
    (round : Round) (rounds : List Round)
    → round.requested ≡ false
    → ((r : Round) → Has r rounds → r.requested ≡ false)
    → (r : Round) → Has r (round ∷ rounds)
    → r.requested ≡ false
calm_round round rounds h rest r at_head = h
calm_round round rounds h rest r (behind at) = rest r at

-- A round that goes on adds itself to what the later ones tell.
Tells-behind :
    (round : Round) (rounds : List Round) (p : Prompt)
    → round.requested ≡ false
    → Tells rounds p
    → Tells (round ∷ rounds) p
Tells-behind round rounds (returns z) h (inl (e, (r, at, asked))) = inl (e, (r, behind at, asked))
Tells-behind round rounds (returns z) h (inr (port, (r, at, calm, free))) =
    inr (port, (r, behind at, calm, free))
Tells-behind round rounds exits h (r, at, calm, failed) = (r, behind at, calm, failed)
Tells-behind round rounds asks_again h tells = calm_round round rounds h tells

is_in_range-IsPort : (z : ℤ) → is_in_range z ≡ true → IsPort z
unfolding is_in_range
is_in_range-IsPort (pos n) h = (ground arith, ground arith)
is_in_range-IsPort (negsuc n) h = absurd (cc)

-- A port that a round gives is one, and is free in it.
abbrev IsGood : Round → Option ℤ → Type 0
IsGood round none = Unit {0}
IsGood round (some z) = IsPort z × (is_port_free round z ≡ true)

free_port-IsGood : (round : Round) (z : ℤ) → IsPort z → IsGood round (free_port round z)
unfolding free_port
free_port-IsGood round z h =
    if_rule (IsGood round) (is_port_free round z) _ _ (λ free. (h, free)) (λ taken. tt)

module _ (stoi : Bytes → Option ℤ) (default_port : ℤ) where
  read_port-IsGood :
      (round : Round) (line : Bytes) → IsGood round (read_port stoi default_port round line)
  unfolding read_port
  read_port-IsGood round line = elim (Option-cases (stoi line)) [
    | inl thrown ↦ rw (thrown, read_port) tt
    | inr (z, e) ↦
        rw (e, read_port)
          (if_rule (IsGood round) (is_in_range z) _ _
            (λ inside. free_port-IsGood round z (is_in_range-IsPort z inside)) (λ outside. tt))
  ]

  choose_port-IsGood :
      (round : Round) (line : Bytes)
      → IsPort default_port
      → IsGood round (choose_port stoi default_port round line)
  unfolding choose_port
  choose_port-IsGood round [] h = free_port-IsGood round default_port h
  choose_port-IsGood round (c ∷ cs) h = read_port-IsGood round (c ∷ cs)

  chosen_lem :
      (round : Round) (rounds : List Round) (choice : Option ℤ) (later : Prompt)
      → round.requested ≡ false
      → IsGood round choice
      → Tells rounds later
      → Tells (round ∷ rounds) (elim choice [ none ↦ later | some port ↦ returns port ])
  chosen_lem round rounds none later h good tells = Tells-behind round rounds later h tells
  chosen_lem round rounds (some z) later h (port, free) tells =
      inr (port, (round, at_head, h, free))

  line_lem :
      (round : Round) (rounds : List Round) (line : Option Bytes) (later : Prompt)
      → round.requested ≡ false
      → round.line ≡ line
      → IsPort default_port
      → Tells rounds later
      → Tells (round ∷ rounds) (elim line [
        | none ↦ exits
        | some l ↦ elim (choose_port stoi default_port round l) [
          | none ↦ later
          | some port ↦ returns port
        ]
      ])
  line_lem round rounds none later h e def tells = (round, at_head, h, e)
  line_lem round rounds (some l) later h e def tells =
      chosen_lem round rounds (choose_port stoi default_port round l) later h
        (choose_port-IsGood round l def) tells

  -- If the default port is one of 1 to 65535, promptForPort returns -1 only in a round in which a
  -- shutdown is requested, and else a number from 1 to 65535 on which a socket could be bound in a
  -- round without such a request; it exits only when a line cannot be read in such a round, and
  -- asks again only while no shutdown is requested.
  pub prompt_for_port-bounds :
      (rounds : List Round)
      → IsPort default_port
      → Tells rounds (prompt_for_port stoi default_port rounds)
  unfolding prompt_for_port
  prompt_for_port-bounds [] def = λ r at. elim at [ ]
  prompt_for_port-bounds (round ∷ rest) def =
      if_rule (Tells (round ∷ rest)) round.requested _ _
        (λ asked. inl (refl, (round, at_head, asked)))
        (λ calm. line_lem round rest round.line _ calm refl def (prompt_for_port-bounds rest def))
