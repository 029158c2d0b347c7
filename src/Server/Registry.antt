-- ===== src/Server/Registry.antt =====
-- server/net/SessionRegistry.cpp: which session object serves which user. The mutex makes each
-- call one step.
use cvcn.Common.{
  ℕ, zero, suc, ◌≡◌, ◌≢◌, refl, arith, List, [], ◌∷◌, Option, none, some, ◌==◌, if◌then◌else◌,
}
use cvcn.Common.Dict.{Dict, lookup, insert, erase, lookup-insert, lookup-erase}

-- `if (userID <= 0 || session == nullptr) return;`, where no caller passes a null session.
unfoldable pub register_user : Option ℕ → ℕ → Dict ℕ → Dict ℕ
register_user none session by_user_id = by_user_id
register_user (some zero) session by_user_id = by_user_id
register_user (some (suc n)) session by_user_id = insert (suc n) session by_user_id

unfoldable pub unregister_user : ℕ → ℕ → Dict ℕ → Dict ℕ
unregister_user user_id session by_user_id = elim (lookup user_id by_user_id) [
  | none ↦ by_user_id
  | some s ↦ if s == session then erase user_id by_user_id else by_user_id
]

unfoldable pub find_by_user_id : ℕ → Dict ℕ → Option ℕ
find_by_user_id user_id by_user_id = lookup user_id by_user_id

unfoldable pub find_by_user_ids : List ℕ → Dict ℕ → List ℕ
find_by_user_ids [] by_user_id = []
find_by_user_ids (user_id ∷ rest) by_user_id =
    let found = find_by_user_ids rest by_user_id in
    elim (lookup user_id by_user_id) [ none ↦ found | some s ↦ s ∷ found ]

-- The last session that a user registered is the one found, and nobody else's entry changes.
pub find-register :
    (u j session : ℕ) (r : Dict ℕ)
    → u ≢ 0
    → find_by_user_id j (register_user (some u) session r)
      ≡ (if u == j then some session else find_by_user_id j r)
unfolding find_by_user_id register_user
find-register zero j session r pos = absurd (pos refl)
find-register (suc n) j session r pos = lookup-insert (suc n) j session r

-- A session that is closed takes off its own entry only: an entry of the same user that a later
-- session made stays, and so do the other users' entries.
pub find-unregister :
    (u j session : ℕ) (r : Dict ℕ)
    → find_by_user_id j (unregister_user u session r) ≡ elim (find_by_user_id j r) [
      | none ↦ none
      | some s ↦ if u == j then (if s == session then none else some s) else some s
    ]
unfolding find_by_user_id unregister_user
find-unregister u j session r = ground (arith, lookup-erase u j r)
