-- ===== src/Storage/Statements.antt =====
-- Every operation of the repositories finalizes the statements that it prepares.
use cvcn.Common.{
  ℕ, ◌+◌, ◌-◌, if◌then◌else◌, ◌≡◌, refl, ◌∙◌, ap, arith, Bool, true, false, List, [], ◌∷◌, if_rule,
}
use cvcn.Wire.Bytes.{Bytes}
use cvcn.Storage.{
  ℤ, minus_one, is_minus_one, Sqlite, begin_sql, insert_chat_sql, Sql, Value, Connection, C, ◌>>=◌,
  pure, finalize, prepared, step_done, step_rows, exec,
}
use cvcn.Storage.Users.{
  add_user, has_changes, delete_user, get_user_password_hash, user_exists, get_user_id,
  save_message, first_int,
}
use cvcn.Storage.Chats.{
  find_users, roll_back, insert_member, insert_members, commit_chat, inserted_id, fill_chat,
  insert_chat, create_direct_chat, find_or_create_direct_chat, get_user_chats, get_chat_member_ids,
}

module _ {Db A : Type 0} where
  -- The number of open statements after a call is the one before, or one less.
  abbrev pub IsBalanced : C Db A → Type 0
  IsBalanced m = (c : Connection Db) → (m c).1.open_statements ≡ c.open_statements

  abbrev IsClosing : C Db A → Type 0
  IsClosing m = (c : Connection Db) → (m c).1.open_statements ≡ c.open_statements - 1

  pure-IsBalanced : (a : A) → IsBalanced (pure a)
  unfolding pure
  pure-IsBalanced a c = refl

module _ {Db A B : Type 0} where
  bind-IsBalanced :
      (m : C Db A) (f : A → C Db B)
      → IsBalanced m
      → ((a : A) → IsBalanced (f a))
      → IsBalanced (m >>= f)
  unfolding ◌>>=◌
  bind-IsBalanced m f hm hf c = hf (m c).0 (m c).1 ∙ hm c

  bind-IsClosing :
      (m : C Db A) (f : A → C Db B)
      → IsBalanced m
      → ((a : A) → IsClosing (f a))
      → IsClosing (m >>= f)
  unfolding ◌>>=◌
  bind-IsClosing m f hm hf c = hf (m c).0 (m c).1 ∙ ap (λ n. n - 1) (hm c)

module _ {Db B : Type 0} where
  finalize-IsClosing :
      (f : Unit {0} → C Db B) → ((t : Unit {0}) → IsBalanced (f t)) → IsClosing (finalize >>= f)
  unfolding ◌>>=◌ finalize
  finalize-IsClosing f hf c = hf tt _

module _ {Db : Type 0} (q : Sqlite Db) where
  module _ {A : Type 0} where
    prepared-IsBalanced :
        (sql : Sql) (failed rest : C Db A)
        → IsBalanced failed
        → IsClosing rest
        → IsBalanced (prepared q sql failed rest)
    unfolding prepared
    prepared-IsBalanced sql failed rest hf hr c =
        if_rule (λ (r : A × Connection Db). r.1.open_statements ≡ c.open_statements)
          (q.prepare sql c.store) _ _
          (λ yes. omega (arith, hr (record c { open_statements = c.open_statements + 1 })))
          (λ no. hf c)

    -- The shape of the operations: a step, sqlite3_finalize, and what is returned.
    statement-IsBalanced :
        {R : Type 0} (sql : Sql) (failed : C Db A) (m : C Db R) (f : R → C Db A)
        → IsBalanced failed
        → IsBalanced m
        → ((r : R) → IsBalanced (f r))
        → IsBalanced (prepared q sql failed (m >>= λ r. finalize >>= λ _. f r))
    statement-IsBalanced sql failed m f hf hm hr =
        prepared-IsBalanced sql failed _ hf
          (bind-IsClosing m _ hm (λ r. finalize-IsClosing (λ _. f r) (λ t. hr r)))

    if-IsBalanced :
        (b : Bool) (m n : C Db A) → IsBalanced m → IsBalanced n → IsBalanced (if b then m else n)
    if-IsBalanced true m n hm hn = hm
    if-IsBalanced false m n hm hn = hn

    query-IsBalanced :
        (sql : Sql) (bound : List Value) (failed : A) (f : List (List Value) → A)
        → IsBalanced (
            prepared q sql
              (pure failed)
              (step_rows q sql bound >>= λ rows. finalize >>= λ _. pure (f rows)))
    unfolding step_rows
    query-IsBalanced sql bound failed f =
        statement-IsBalanced sql _ (step_rows q sql bound) (λ rows. pure (f rows))
          (pure-IsBalanced failed) (λ c. refl) (λ rows. pure-IsBalanced (f rows))

    roll_back-IsBalanced : (a : A) → IsBalanced (roll_back q a)
    unfolding roll_back exec ◌>>=◌ pure
    roll_back-IsBalanced a c = refl

  write-IsBalanced :
      (sql : Sql) (bound : List Value) (failed : C Db Bool) (f : Bool → C Db Bool)
      → IsBalanced failed
      → ((done : Bool) → IsBalanced (f done))
      → IsBalanced
          (prepared q sql failed (step_done q sql bound >>= λ done. finalize >>= λ _. f done))
  unfolding step_done
  write-IsBalanced sql bound failed f hf h =
      statement-IsBalanced sql failed (step_done q sql bound) f hf (λ c. refl) h

  exec-IsBalanced : (sql : Sql) → IsBalanced (exec q sql)
  unfolding exec
  exec-IsBalanced sql c = refl

  insert_member-IsBalanced : (chat user : ℤ) → IsBalanced (insert_member q chat user)
  unfolding insert_member
  insert_member-IsBalanced chat user =
      write-IsBalanced _ _ _ _ (roll_back-IsBalanced false)
        (λ done. if-IsBalanced done _ _ (pure-IsBalanced true) (roll_back-IsBalanced false))

  insert_members-IsBalanced : (chat : ℤ) (users : List ℤ) → IsBalanced (insert_members q chat users)
  unfolding insert_members
  insert_members-IsBalanced chat [] = pure-IsBalanced true
  insert_members-IsBalanced chat (u ∷ us) =
      bind-IsBalanced _ _ (insert_member-IsBalanced chat u) (λ added.
        if-IsBalanced added _ _ (insert_members-IsBalanced chat us) (pure-IsBalanced false))

  commit_chat-IsBalanced : (chat : ℤ) → IsBalanced (commit_chat q chat)
  unfolding commit_chat
  commit_chat-IsBalanced chat =
      bind-IsBalanced _ _ (exec-IsBalanced _)
        (λ done. if-IsBalanced done _ _ (pure-IsBalanced chat) (roll_back-IsBalanced minus_one))

  fill_chat-IsBalanced : (u v : ℤ) → IsBalanced (fill_chat q u v)
  unfolding fill_chat inserted_id
  fill_chat-IsBalanced u v =
      bind-IsBalanced (inserted_id q) _ (λ c. refl)
        (λ chat. bind-IsBalanced _ _ (insert_members-IsBalanced chat (u ∷ v ∷ [])) (λ added.
          if-IsBalanced added _ _ (commit_chat-IsBalanced chat) (pure-IsBalanced minus_one)))

  create_direct_chat-IsBalanced : (u v : ℤ) → IsBalanced (create_direct_chat q u v)
  unfolding create_direct_chat insert_chat
  create_direct_chat-IsBalanced u v = bind-IsBalanced _ _ (exec-IsBalanced begin_sql) (λ begun.
      if-IsBalanced begun _ _
        (bind-IsBalanced _ _ (exec-IsBalanced insert_chat_sql) (λ inserted.
          if-IsBalanced inserted _ _ (fill_chat-IsBalanced u v) (roll_back-IsBalanced minus_one)))
        (pure-IsBalanced minus_one))

  find_or_create-IsBalanced : (u v : ℤ) → IsBalanced (find_or_create_direct_chat q u v)
  unfolding find_or_create_direct_chat step_rows
  find_or_create-IsBalanced u v =
      statement-IsBalanced _ _ (step_rows q _ _)
        (λ rows.
          if is_minus_one (first_int q rows)
          then create_direct_chat q u v
          else pure (first_int q rows))
        (pure-IsBalanced minus_one) (λ c. refl)
        (λ rows.
          if-IsBalanced (is_minus_one (first_int q rows)) _ _ (create_direct_chat-IsBalanced u v)
            (pure-IsBalanced (first_int q rows)))

  delete_user-IsBalanced : (name hash : Bytes) → IsBalanced (delete_user q name hash)
  unfolding delete_user has_changes
  delete_user-IsBalanced name hash =
      write-IsBalanced _ _ _ _ (pure-IsBalanced false)
        (λ done. if-IsBalanced done _ _ (λ c. refl) (pure-IsBalanced false))

  -- Every operation of the three repositories leaves as many statements prepared and not finalized
  -- as it found, on every path: when a statement cannot be prepared, when a step fails, and when
  -- the transaction of a new chat is rolled back.
  pub repositories-finalize :
      (name hash words : Bytes) (u v : ℤ) (chat : ℕ)
      → IsBalanced (add_user q name hash)
        × IsBalanced (delete_user q name hash)
        × IsBalanced (get_user_password_hash q name)
        × IsBalanced (user_exists q name)
        × IsBalanced (get_user_id q name)
        × IsBalanced (find_users q words u)
        × IsBalanced (find_or_create_direct_chat q u v)
        × IsBalanced (get_user_chats q u)
        × IsBalanced (get_chat_member_ids q chat)
        × IsBalanced (save_message q chat u words)
  unfolding add_user get_user_password_hash user_exists get_user_id find_users get_user_chats
      get_chat_member_ids save_message
  repositories-finalize name hash words u v chat = (
    write-IsBalanced _ _ _ _ (pure-IsBalanced false) pure-IsBalanced,
    delete_user-IsBalanced name hash,
    query-IsBalanced _ _ _ _,
    bind-IsBalanced _ _ (query-IsBalanced _ _ _ _) (λ h. pure-IsBalanced _),
    query-IsBalanced _ _ _ _,
    query-IsBalanced _ _ _ _,
    find_or_create-IsBalanced u v,
    query-IsBalanced _ _ _ _,
    query-IsBalanced _ _ _ _,
    write-IsBalanced _ _ _ _ (pure-IsBalanced false) pure-IsBalanced,
  )
