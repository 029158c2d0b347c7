-- ===== src/Storage/Database.antt =====
-- server/storage/Database.cpp: the connection is opened and the tables are created.
use cvcn.Common.{Bool, List, [], ◌∷◌, true, false, Option, none, some, if◌then◌else◌}
use cvcn.Storage.{
  Sqlite, journal_mode_sql, foreign_keys_sql, create_users_sql, create_chats_sql,
  create_members_sql, create_messages_sql, Sql, Connection, C, ◌>>=◌, pure, exec,
}

module _ {Db : Type 0} (q : Sqlite Db) where
  -- A failed text is logged with its context.
  unfoldable pub execute_sql : Sql → C Db Bool
  execute_sql sql = exec q sql

  -- `if (!executeSql(...)) return false;` for each text in order.
  unfoldable pub execute_all : List Sql → C Db Bool
  execute_all [] = pure true
  execute_all (sql ∷ rest) = do
    done ← execute_sql sql
    if done then execute_all rest else pure false

  unfoldable pub create_tables : C Db Bool
  create_tables =
      execute_all
        (create_users_sql ∷ create_chats_sql ∷ create_members_sql ∷ create_messages_sql ∷ [])

  -- What follows sqlite3_open; what the two PRAGMA texts return is not looked at.
  unfoldable pub set_up : C Db Bool
  set_up = do journal ← exec q journal_mode_sql; keys ← exec q foreign_keys_sql; create_tables

  -- `opened` is what sqlite3_open gives, none unless it returns SQLITE_OK. The constructor throws
  -- where this is none.
  unfoldable pub open_database : Option Db → Option (Connection Db)
  open_database none = none
  open_database (some db) =
      let (done, c) = set_up (record { store = db; open_statements = 0 }) in
      if done then some c else none
