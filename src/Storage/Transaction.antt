-- ===== src/Storage/Transaction.antt =====
-- findOrCreateDirectChat as a whole: it is done, or nothing is.
use cvcn.Common.{
  ◌≡◌, refl, sym, subst, ◌⊎◌, inl, inr, Bool, true, false, [], ◌∷◌, Option, none, some,
  if◌then◌else◌, if_rule,
}
use cvcn.Storage.{
  ℤ, minus_one, is_minus_one, Sqlite, find_chat_sql, insert_member_sql, members_sql, begin_sql,
  insert_chat_sql, commit_sql, integer, low_bits, to_int, Connection, C, ◌>>=◌, pure, finalize,
  prepared, step_done, step_rows, exec,
}
use cvcn.Storage.Users.{first_int}
use cvcn.Storage.Chats.{
  roll_back, insert_member, insert_members, commit_chat, inserted_id, fill_chat, insert_chat,
  create_direct_chat, find_or_create_direct_chat,
}
use cvcn.Storage.Laws.{Has, IsSettled, IsWithin, IsTransactional, IsRelational}

module _ {Db : Type 0} (q : Sqlite Db) where
  -- The user is a member of the chat.
  abbrev pub IsMember : ℤ → ℤ → Db → Type 0
  IsMember chat user db = Has (integer user ∷ []) (q.rows members_sql (integer chat ∷ []) db)

module _ {Db Tables : Type 0} (q : Sqlite Db) (tables : Db → Tables)
    (pending : Db → Option Tables) where
  -- What has happened when findOrCreateDirectChat returns, of the tables `t` and the chat `found`
  -- that it saw: it failed, it found the chat, or it made one.
  abbrev pub IsWhole : ℤ → ℤ → Tables → ℤ → ℤ × Connection Db → Type 0
  IsWhole u v t found (chat, c) =
      (pending c.store ≡ none)
      × (((chat ≡ minus_one) × (tables c.store ≡ t))
          ⊎ ((chat ≡ found) × (is_minus_one found ≡ false) × (tables c.store ≡ t))
          ⊎ (IsMember q chat u c.store × IsMember q chat v c.store))

module _ {Db Tables : Type 0} (q : Sqlite Db) (tables : Db → Tables) (pending : Db → Option Tables)
    (trans : IsTransactional tables pending q) (rel : IsRelational tables pending q) where
  -- The part of it that makes a chat.
  abbrev IsMade : ℤ → ℤ → Tables → ℤ × Connection Db → Type 0
  IsMade u v t (chat, c) =
      (pending c.store ≡ none)
      × (((chat ≡ minus_one) × (tables c.store ≡ t))
          ⊎ (IsMember q chat u c.store × IsMember q chat v c.store))

  -- An answer of an insertion: done inside the transaction, or rolled back.
  abbrev IsAdded : ℤ → ℤ → Tables → Db → Bool × Connection Db → Type 0
  IsAdded chat u t db (added, c) =
      ((added ≡ true)
        × (pending c.store ≡ some t)
        × IsMember q chat u c.store
        × ((w : ℤ) → IsMember q chat w db → IsMember q chat w c.store))
      ⊎ ((added ≡ false) × IsSettled tables pending t c.store)

  module _ {A : Type 0} where
    call_rule :
        (P : A × Connection Db → Type 0) (b : Bool) (m n : C Db A) (c : Connection Db)
        → (b ≡ true → P (m c))
        → (b ≡ false → P (n c))
        → P ((if b then m else n) c)
    call_rule P true m n c hm hn = hm refl
    call_rule P false m n c hm hn = hn refl

    roll_back_lem :
        (t : Tables) (a : A) (c : Connection Db)
        → IsWithin tables pending t c.store
        → ((roll_back q a c).0 ≡ a) × IsSettled tables pending t (roll_back q a c).1.store
    unfolding roll_back ◌>>=◌ pure exec
    roll_back_lem t a c h = (refl, trans.rollback_inside t c.store h)

  insert_member-IsAdded :
      (chat u : ℤ) (t : Tables) (c : Connection Db)
      → pending c.store ≡ some t
      → IsAdded chat u t c.store (insert_member q chat u c)
  unfolding insert_member prepared step_done finalize ◌>>=◌ pure
  insert_member-IsAdded chat u t c h =
      let db = c.store in
      let bound = integer chat ∷ integer u ∷ [] in
      let (done, failed) = trans.member_inside bound t db h in
      if_rule (IsAdded chat u t db) (q.prepare insert_member_sql db) _ _
        (λ ready.
          call_rule (IsAdded chat u t db) (q.step insert_member_sql bound db).0 _ _ _
            (λ e. inl (
              refl,
              done e,
              rel.member_inserted chat u db e,
              λ w m. rel.member_kept chat u (integer w ∷ []) db m e,
            ))
            (λ e. inr (roll_back_lem t false _ (failed e))))
        (λ broken. inr (roll_back_lem t false c (inl h)))

  commit_chat-IsMade :
      (chat u v : ℤ) (t : Tables) (c : Connection Db)
      → pending c.store ≡ some t
      → IsMember q chat u c.store
      → IsMember q chat v c.store
      → IsMade u v t (commit_chat q chat c)
  unfolding commit_chat exec ◌>>=◌ pure
  commit_chat-IsMade chat u v t c h mu mv =
      let db' = (q.exec commit_sql c.store).1 in
      call_rule (IsMade u v t) (q.exec commit_sql c.store).0 _ _ _
        (λ e.
          let (p, same) = trans.commit_done t c.store h e in
          let eq = rel.rows_tables members_sql (integer chat ∷ []) _ _ (sym same) in
          (p, inr (subst (Has _) eq mu, subst (Has _) eq mv)))
        (λ e.
          let (a, settled) =
            roll_back_lem t minus_one (record c { store = db' })
              (trans.commit_failed t c.store h e) in
          let (p, same) = settled in (p, inl (a, same)))

  -- An answer of the insertion of both members.
  abbrev IsFilled : ℤ → ℤ → ℤ → Tables → Bool × Connection Db → Type 0
  IsFilled chat u v t (added, c) =
      ((added ≡ true)
        × (pending c.store ≡ some t)
        × IsMember q chat u c.store
        × IsMember q chat v c.store)
      ⊎ ((added ≡ false) × IsSettled tables pending t c.store)

  pub insert_members-IsFilled :
      (chat u v : ℤ) (t : Tables) (c : Connection Db)
      → pending c.store ≡ some t
      → IsFilled chat u v t (insert_members q chat (u ∷ v ∷ []) c)
  unfolding insert_members ◌>>=◌ pure
  insert_members-IsFilled chat u v t c h = elim (insert_member-IsAdded chat u t c h) [
    | inr (refused, settled) ↦ rw refused (inr (refl, settled))
    | inl (done, p, mu, keep_u) ↦
        let c1 = (insert_member q chat u c).1 in
        rw done (elim (insert_member-IsAdded chat v t c1 p) [
          | inr (refused, settled) ↦ rw refused (inr (refl, settled))
          | inl (done', p', mv, keep) ↦ rw done' (inl (refl, p', keep u mu, mv))
        ])
  ]

  fill_chat-IsMade :
      (u v : ℤ) (t : Tables) (c : Connection Db)
      → pending c.store ≡ some t
      → IsMade u v t (fill_chat q u v c)
  unfolding fill_chat inserted_id ◌>>=◌ pure
  fill_chat-IsMade u v t c h =
      let chat = to_int (low_bits (q.last_insert_rowid c.store)) in
      elim (insert_members-IsFilled chat u v t c h) [
        | inr (refused, settled) ↦ rw refused (settled.0, inl (refl, settled.1))
        | inl (done, p, mu, mv) ↦ rw done (commit_chat-IsMade chat u v t _ p mu mv)
      ]

  insert_chat-IsMade :
      (u v : ℤ) (t : Tables) (c : Connection Db)
      → pending c.store ≡ some t
      → IsMade u v t (insert_chat q u v c)
  unfolding insert_chat exec ◌>>=◌ pure
  insert_chat-IsMade u v t c h =
      let (done, failed) = trans.insert_chat_inside t c.store h in
      call_rule (IsMade u v t) (q.exec insert_chat_sql c.store).0 _ _ _
        (λ e. fill_chat-IsMade u v t _ (done e))
        (λ e.
          let (a, settled) = roll_back_lem t minus_one _ (failed e) in
          (settled.0, inl (a, settled.1)))

  create_direct_chat-IsMade :
      (u v : ℤ) (c : Connection Db)
      → pending c.store ≡ none
      → IsMade u v (tables c.store) (create_direct_chat q u v c)
  unfolding create_direct_chat exec ◌>>=◌ pure
  create_direct_chat-IsMade u v c h =
      call_rule (IsMade u v (tables c.store)) (q.exec begin_sql c.store).0 _ _ _
        (λ e. insert_chat-IsMade u v (tables c.store) _ (trans.begin_done c.store h e))
        (λ e. let (p, same) = trans.begin_failed c.store h e in (p, inl (refl, same)))

  -- Outside a transaction findOrCreateDirectChat is all or nothing, on every path: it returns with
  -- no transaction open, and either it returns -1 and the tables are those before, or it returns
  -- the chat that its query found and the tables are those before, or both users are members of
  -- the chat that it returns.
  pub find_or_create-IsWhole :
      (u v : ℤ) (c : Connection Db)
      → pending c.store ≡ none
      → let found = first_int q (q.rows find_chat_sql (integer u ∷ integer v ∷ []) c.store) in
        IsWhole q tables pending u v (tables c.store) found (find_or_create_direct_chat q u v c)
  unfolding find_or_create_direct_chat prepared step_rows finalize ◌>>=◌ pure
  find_or_create-IsWhole u v c h =
      let found = first_int q (q.rows find_chat_sql (integer u ∷ integer v ∷ []) c.store) in
      if_rule (IsWhole q tables pending u v (tables c.store) found)
        (q.prepare find_chat_sql c.store) _ _
        (λ ready.
          call_rule (IsWhole q tables pending u v (tables c.store) found) (is_minus_one found) _ _ _
            (λ e.
              let (p, made) = create_direct_chat-IsMade u v (record c { open_statements = _ }) h in
              (p, elim made [ inl failed ↦ inl failed | inr both ↦ inr (inr both) ]))
            (λ e. (h, inr (inl (refl, e, refl)))))
        (λ broken. (h, inl (refl, refl)))
