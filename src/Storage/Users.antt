-- ===== src/Storage/Users.antt =====
-- server/storage/UserRepository.cpp and MessageRepository.cpp.
use cvcn.Common.{ℕ, ◌%◌, ◌^◌, Bool, true, false, List, [], ◌∷◌, none, some, ltb, if◌then◌else◌}
use cvcn.Wire.Bytes.{Bytes}
use cvcn.Storage.{
  ℤ, minus_one, Sqlite, insert_user_sql, delete_user_sql, password_hash_sql, user_id_sql,
  insert_message_sql, Value, integer, text, c_str, to_int, column, head, C, ◌>>=◌, ◌>>◌, pure,
  finalize, prepared, step_done, step_rows, string_column,
}

-- `!hash.empty()`
abbrev pub has_chars : Bytes → Bool
has_chars [] = false
has_chars (c ∷ cs) = true

module _ {Db : Type 0} (q : Sqlite Db) where
  unfoldable pub add_user : Bytes → Bytes → C Db Bool
  add_user username password_hash = prepared q insert_user_sql (pure false) (do
    done ← step_done q insert_user_sql (text (c_str username) ∷ text (c_str password_hash) ∷ [])
    finalize
    pure done)

  -- `sqlite3_changes(db_) > 0`
  unfoldable pub has_changes : C Db Bool
  has_changes c = (ltb 0 (q.changes c.store), c)

  unfoldable pub delete_user : Bytes → Bytes → C Db Bool
  delete_user username password_hash = prepared q delete_user_sql (pure false) (do
    done ← step_done q delete_user_sql (text (c_str username) ∷ text (c_str password_hash) ∷ [])
    finalize
    if done then has_changes else pure false)

  -- The first row's hash. The column is NOT NULL, so that its text is no null pointer.
  abbrev pub first_hash : List (List Value) → Bytes
  first_hash rows = elim (head rows) [
    | none ↦ []
    | some row ↦ elim (string_column q 0 row) [ none ↦ [] | some hash ↦ hash ]
  ]

  unfoldable pub get_user_password_hash : Bytes → C Db Bytes
  get_user_password_hash username = prepared q password_hash_sql (pure []) (do
    rows ← step_rows q password_hash_sql (text (c_str username) ∷ [])
    finalize
    pure (first_hash rows))

  unfoldable pub user_exists : Bytes → C Db Bool
  user_exists username = do hash ← get_user_password_hash username; pure (has_chars hash)

  -- The first row's number, or -1.
  abbrev pub first_int : List (List Value) → ℤ
  first_int rows = elim (head rows) [ none ↦ minus_one | some row ↦ q.column_int (column 0 row) ]

  unfoldable pub get_user_id : Bytes → C Db ℤ
  get_user_id username = prepared q user_id_sql (pure minus_one) (do
    rows ← step_rows q user_id_sql (text (c_str username) ∷ [])
    finalize
    pure (first_int rows))

  unfoldable pub save_message : ℕ → ℤ → Bytes → C Db Bool
  save_message chat_id sender_id words = prepared q insert_message_sql (pure false) (do
    done ←
        step_done q insert_message_sql
          (integer (to_int (chat_id % 2 ^ 32)) ∷ integer sender_id ∷ text (c_str words) ∷ [])
    finalize
    pure done)
