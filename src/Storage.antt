-- ===== src/Storage.antt =====
-- What the repositories of server/storage/ work on: one connection to SQLite, which is a parameter,
-- and the calls of its interface.
pub mod Users
pub mod Chats
pub mod Database
pub mod Interface
pub mod Laws
pub mod Statements
pub mod Transaction
pub mod Accounts
pub mod Races
use cvcn.Common.{
  ℕ, zero, suc, ◌+◌, ◌-◌, ◌^◌, ◌%◌, Bool, true, false, List, [], ◌∷◌, Option, none, some, ltb, ◌==◌,
  if◌then◌else◌,
}
use cvcn.Wire.Bytes.{Bytes}

-- A signed number: `negsuc n` is `- (n + 1)`.
pub data ℤ : Type 0 where
  pos negsuc : ℕ → ℤ

abbrev pub minus_one : ℤ
minus_one = negsuc 0

-- `z == -1`
abbrev pub is_minus_one : ℤ → Bool
is_minus_one (pos n) = false
is_minus_one (negsuc n) = n == 0

-- The texts of SQL in the sources, one constructor for each.
pub data Sql : Type 0 where
  insert_user_sql delete_user_sql password_hash_sql user_id_sql : Sql
  find_users_sql find_chat_sql insert_member_sql user_chats_sql members_sql : Sql
  insert_message_sql : Sql
  begin_sql insert_chat_sql commit_sql rollback_sql : Sql
  journal_mode_sql foreign_keys_sql : Sql
  create_users_sql create_chats_sql create_members_sql create_messages_sql : Sql

-- What is bound to a statement, and what a column holds.
pub data Value : Type 0 where
  integer : ℤ → Value
  text : Bytes → Value
  null : Value

-- SQLite: `Db` is all it keeps for a connection. `prepare` is whether sqlite3_prepare_v2 returns
-- SQLITE_OK, `step` whether the first sqlite3_step of a statement that writes returns SQLITE_DONE,
-- `rows` what sqlite3_step returns of a query before its first result other than SQLITE_ROW, and
-- `exec` whether sqlite3_exec returns SQLITE_OK.
pub record Sqlite (Db : Type 0) : Type 0 where
  pub prepare : Sql → Db → Bool
  pub step : Sql → List Value → Db → Bool × Db
  pub rows : Sql → List Value → Db → List (List Value)
  pub exec : Sql → Db → Bool × Db
  pub changes : Db → ℕ
  pub last_insert_rowid : Db → ℤ
  pub column_text : Value → Option Bytes
  pub column_int : Value → ℤ

-- The connection, with the number of statements that are prepared and not finalized.
pub record Connection (Db : Type 0) : Type 0 where
  pub store : Db
  pub open_statements : ℕ

-- The text that ends at the first NUL: what `c_str()` with the length -1 binds, and what a
-- `std::string` takes from a `const char*`.
unfoldable pub c_str : Bytes → Bytes
c_str [] = []
c_str (c ∷ cs) = let rest = c_str cs in if c == 0 then [] else c ∷ rest

-- The 32 bits of a number, and the `int` that has them.
abbrev pub low_bits : ℤ → ℕ
low_bits (pos n) = n % 2 ^ 32
low_bits (negsuc n) = 2 ^ 32 - 1 - n % 2 ^ 32

abbrev pub to_int : ℕ → ℤ
to_int bits = if ltb bits (2 ^ 31) then pos bits else negsuc (2 ^ 32 - 1 - bits)

-- The column of a row: NULL behind the last one.
abbrev pub column : ℕ → List Value → Value
column i [] = null
column zero (v ∷ row) = v
column (suc i) (v ∷ row) = column i row

abbrev pub head : {A : Type 0} → List A → Option A
head [] = none
head (x ∷ xs) = some x

-- A call on a connection.
abbrev pub C : Type 0 → Type 0 → Type 0
C Db A = Connection Db → A × Connection Db

module _ {Db : Type 0} where
  infixl 5 ◌>>=◌ ◌>>◌
  unfoldable pub ◌>>=◌ : {A B : Type 0} → C Db A → (A → C Db B) → C Db B
  ◌>>=◌ m f c = let (a, c') = m c in f a c'

  abbrev pub ◌>>◌ : {B : Type 0} → C Db (Unit {0}) → C Db B → C Db B
  m >> k = m >>= λ _. k

  unfoldable pub pure : {A : Type 0} → A → C Db A
  pure a c = (a, c)

  -- `sqlite3_finalize`
  unfoldable pub finalize : C Db (Unit {0})
  finalize c = (tt, record c { open_statements = c.open_statements - 1 })

module _ {Db : Type 0} (q : Sqlite Db) where
  -- `sqlite3_prepare_v2`: the first call is made if it fails, the second if it does not.
  unfoldable pub prepared : {A : Type 0} → Sql → C Db A → C Db A → C Db A
  prepared sql failed rest c =
      if q.prepare sql c.store
      then rest (record c { open_statements = c.open_statements + 1 })
      else failed c

  -- `sqlite3_step` of a statement that writes: whether it is done.
  unfoldable pub step_done : Sql → List Value → C Db Bool
  step_done sql bound c =
      let (done, db) = q.step sql bound c.store in (done, record c { store = db })

  -- `sqlite3_step` of a query until it gives no row.
  unfoldable pub step_rows : Sql → List Value → C Db (List (List Value))
  step_rows sql bound c = (q.rows sql bound c.store, c)

  -- `sqlite3_exec`: whether it succeeds.
  unfoldable pub exec : Sql → C Db Bool
  exec sql c = let (done, db) = q.exec sql c.store in (done, record c { store = db })

  -- A `std::string` from a column that may be NULL.
  abbrev pub string_column : ℕ → List Value → Option Bytes
  string_column i row = elim (q.column_text (column i row)) [
    | none ↦ none
    | some t ↦ some (c_str t)
  ]
