-- ===== src/Storage/Chats.antt =====
-- server/storage/ChatRepository.cpp.
use cvcn.Common.{ℕ, ◌%◌, ◌^◌, Bool, true, false, List, [], ◌∷◌, ◌++◌, none, some, if◌then◌else◌}
use cvcn.Wire.Bytes.{Bytes}
use cvcn.Wire.Packet.{ChatListEntry}
use cvcn.Storage.{
  ℤ, minus_one, is_minus_one, Sqlite, find_users_sql, find_chat_sql, insert_member_sql,
  user_chats_sql, members_sql, begin_sql, insert_chat_sql, commit_sql, rollback_sql, Value, integer,
  text, c_str, low_bits, to_int, column, C, ◌>>=◌, ◌>>◌, pure, finalize, prepared, step_done,
  step_rows, exec, string_column,
}
use cvcn.Storage.Users.{first_int}

module _ {Db : Type 0} (q : Sqlite Db) where
  -- The loop over the rows of users: a NULL is passed over.
  unfoldable pub collect_names : List (List Value) → List Bytes
  collect_names [] = []
  collect_names (row ∷ rest) =
      let names = collect_names rest in
      elim (string_column q 0 row) [ none ↦ names | some name ↦ name ∷ names ]

  unfoldable pub find_users : Bytes → ℤ → C Db (List Bytes)
  find_users query exclude_user_id = prepared q find_users_sql (pure []) (do
    rows ←
        step_rows q find_users_sql
          (text (c_str (query ++ b'%' ∷ [])) ∷ integer exclude_user_id ∷ [])
    finalize
    pure (collect_names rows))

  -- `sqlite3_exec(db_, "ROLLBACK", ...)` and the return.
  unfoldable pub roll_back : {A : Type 0} → A → C Db A
  roll_back answer = do done ← exec q rollback_sql; pure answer

  -- One round of the loop over the two users.
  unfoldable pub insert_member : ℤ → ℤ → C Db Bool
  insert_member chat_id user_id = prepared q insert_member_sql (roll_back false) (do
    done ← step_done q insert_member_sql (integer chat_id ∷ integer user_id ∷ [])
    finalize
    if done then pure true else roll_back false)

  unfoldable pub insert_members : ℤ → List ℤ → C Db Bool
  insert_members chat_id [] = pure true
  insert_members chat_id (user_id ∷ rest) = do
    added ← insert_member chat_id user_id
    if added then insert_members chat_id rest else pure false

  unfoldable pub commit_chat : ℤ → C Db ℤ
  commit_chat chat_id = do
    done ← exec q commit_sql
    if done then pure chat_id else roll_back minus_one

  -- `static_cast<int>(sqlite3_last_insert_rowid(db_))`
  unfoldable pub inserted_id : C Db ℤ
  inserted_id c = (to_int (low_bits (q.last_insert_rowid c.store)), c)

  -- What follows the insertion of the chat.
  unfoldable pub fill_chat : ℤ → ℤ → C Db ℤ
  fill_chat user1_id user2_id = do
    chat_id ← inserted_id
    added ← insert_members chat_id (user1_id ∷ user2_id ∷ [])
    if added then commit_chat chat_id else pure minus_one

  unfoldable pub insert_chat : ℤ → ℤ → C Db ℤ
  insert_chat user1_id user2_id = do
    inserted ← exec q insert_chat_sql
    if inserted then fill_chat user1_id user2_id else roll_back minus_one

  unfoldable pub create_direct_chat : ℤ → ℤ → C Db ℤ
  create_direct_chat user1_id user2_id = do
    begun ← exec q begin_sql
    if begun then insert_chat user1_id user2_id else pure minus_one

  unfoldable pub find_or_create_direct_chat : ℤ → ℤ → C Db ℤ
  find_or_create_direct_chat user1_id user2_id = prepared q find_chat_sql (pure minus_one) (do
    rows ← step_rows q find_chat_sql (integer user1_id ∷ integer user2_id ∷ [])
    finalize
    let chat_id = first_int q rows
    if is_minus_one chat_id then create_direct_chat user1_id user2_id else pure chat_id)

  -- `static_cast<uint32_t>(sqlite3_column_int(stmt, 0))`, and the name or "".
  abbrev pub chat_entry : List Value → ChatListEntry
  chat_entry row = record {
    chat_id = low_bits (q.column_int (column 0 row));
    peer_username = elim (string_column q 1 row) [ none ↦ [] | some name ↦ name ];
  }

  unfoldable pub collect_chats : List (List Value) → List ChatListEntry
  collect_chats [] = []
  collect_chats (row ∷ rest) = chat_entry row ∷ collect_chats rest

  unfoldable pub get_user_chats : ℤ → C Db (List ChatListEntry)
  get_user_chats user_id = prepared q user_chats_sql (pure []) (do
    rows ← step_rows q user_chats_sql (integer user_id ∷ integer user_id ∷ [])
    finalize
    pure (collect_chats rows))

  unfoldable pub collect_ids : List (List Value) → List ℤ
  collect_ids [] = []
  collect_ids (row ∷ rest) = q.column_int (column 0 row) ∷ collect_ids rest

  unfoldable pub get_chat_member_ids : ℕ → C Db (List ℤ)
  get_chat_member_ids chat_id = prepared q members_sql (pure []) (do
    rows ← step_rows q members_sql (integer (to_int (chat_id % 2 ^ 32)) ∷ [])
    finalize
    pure (collect_ids rows))
