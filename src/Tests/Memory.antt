-- ===== src/Tests/Memory.antt =====
-- An engine in memory for the statements of server/storage/, on which the theorems about the
-- repositories are applied.
pub mod Laws
use cvcn.Common.{
  ℕ, suc, ◌+◌, Bool, true, false, ◌&&◌, List, [], ◌∷◌, Option, none, some, length, ◌==◌,
  if◌then◌else◌,
}
use cvcn.Wire.Bytes.{Bytes}
use cvcn.Server.Services.{same_text}
use cvcn.Storage.{
  ℤ, pos, negsuc, to_int, low_bits, Sqlite, insert_user_sql, delete_user_sql, password_hash_sql,
  user_id_sql, find_chat_sql, insert_member_sql, members_sql, insert_message_sql, begin_sql,
  insert_chat_sql, commit_sql, rollback_sql, Sql, Value, integer, text, null, Connection,
}

pub record Tables : Type 0 where
  pub users : List (Bytes × Bytes)
  pub chats : ℕ
  pub members : List (ℤ × ℤ)
  pub messages : ℕ

pub record Memory : Type 0 where
  pub now : Tables
  pub before : Option Tables
  pub rowid : ℤ
  pub changed : ℕ

abbrev pub same_int : ℤ → ℤ → Bool
same_int (pos a) (pos b) = a == b
same_int (pos a) (negsuc b) = false
same_int (negsuc a) (pos b) = false
same_int (negsuc a) (negsuc b) = a == b

unfoldable pub hash_in : Bytes → List (Bytes × Bytes) → Option Bytes
hash_in name [] = none
hash_in name (user ∷ rest) =
    let later = hash_in name rest in if same_text user.0 name then some user.1 else later

unfoldable pub without : Bytes → List (Bytes × Bytes) → List (Bytes × Bytes)
without name [] = []
without name (user ∷ rest) =
    let kept = without name rest in if same_text user.0 name then kept else user ∷ kept

unfoldable pub id_in : Bytes → List (Bytes × Bytes) → List (List Value)
id_in name [] = []
id_in name (user ∷ rest) =
    let later = id_in name rest in
    if same_text user.0 name then (integer (pos (suc (length rest))) ∷ []) ∷ [] else later

unfoldable pub is_member : ℤ → ℤ → List (ℤ × ℤ) → Bool
is_member chat user [] = false
is_member chat user (m ∷ rest) =
    let later = is_member chat user rest in
    if same_int m.0 chat && same_int m.1 user then true else later

unfoldable pub members_in : ℤ → List (ℤ × ℤ) → List (List Value)
members_in chat [] = []
members_in chat (m ∷ rest) =
    let later = members_in chat rest in
    if same_int m.0 chat then (integer m.1 ∷ []) ∷ later else later

-- The chats of `u` in which `v` is too.
unfoldable pub shared : ℤ → ℤ → List (ℤ × ℤ) → List (ℤ × ℤ) → List (List Value)
shared u v everyone [] = []
shared u v everyone (m ∷ rest) =
    let later = shared u v everyone rest in
    if same_int m.1 u && is_member m.0 v everyone then (integer m.0 ∷ []) ∷ later else later

unfoldable pub insert_user : Bytes → Bytes → Memory → Bool × Memory
insert_user name hash db = elim (hash_in name db.now.users) [
  | some h ↦ (false, db)
  | none ↦ (true, record db { now = record db.now { users = (name, hash) ∷ db.now.users } })
]

unfoldable pub remove_user : Bytes → Bytes → Memory → Bool × Memory
remove_user name hash db = elim (hash_in name db.now.users) [
  | none ↦ (true, record db { changed = 0 })
  | some h ↦
      if same_text h hash
      then (
        true,
        record db { now = record db.now { users = without name db.now.users }; changed = 1 },
      )
      else (true, record db { changed = 0 })
]

unfoldable pub add_member : ℤ → ℤ → Memory → Bool × Memory
add_member chat user db =
    if is_member chat user db.now.members
    then (false, db)
    else (true, record db { now = record db.now { members = (chat, user) ∷ db.now.members } })

unfoldable pub run_step : Sql → List Value → Memory → Bool × Memory
run_step insert_user_sql (text name ∷ text hash ∷ []) db = insert_user name hash db
run_step delete_user_sql (text name ∷ text hash ∷ []) db = remove_user name hash db
run_step insert_member_sql (integer chat ∷ integer user ∷ []) db = add_member chat user db
run_step insert_message_sql bound db = (
  true,
  record db {
    now = record db.now { messages = db.now.messages + 1 };
    rowid = pos (db.now.messages + 1);
  },
)
run_step sql bound db = (false, db)

unfoldable pub rows_of : Sql → List Value → Tables → List (List Value)
rows_of password_hash_sql (text name ∷ []) t = elim (hash_in name t.users) [
  | none ↦ []
  | some h ↦ (text h ∷ []) ∷ []
]
rows_of user_id_sql (text name ∷ []) t = id_in name t.users
rows_of members_sql (integer chat ∷ []) t = members_in chat t.members
rows_of find_chat_sql (integer u ∷ integer v ∷ []) t = shared u v t.members t.members
rows_of sql bound t = []

unfoldable pub run_text : Sql → Memory → Bool × Memory
run_text begin_sql db = elim db.before [
  | some t ↦ (false, db)
  | none ↦ (true, record db { before = some db.now })
]
run_text insert_chat_sql db = (
  true,
  record db { now = record db.now { chats = db.now.chats + 1 }; rowid = pos (db.now.chats + 1) },
)
run_text commit_sql db = elim db.before [
  | none ↦ (false, db)
  | some t ↦ (true, record db { before = none })
]
run_text rollback_sql db = elim db.before [
  | none ↦ (false, db)
  | some t ↦ (true, record db { before = none; now = t })
]
run_text sql db = (true, db)

abbrev pub text_of : Value → Option Bytes
text_of (text t) = some t
text_of v = none

abbrev pub int_of : Value → ℤ
int_of (integer z) = to_int (low_bits z)
int_of v = pos 0

abbrev pub engine : Sqlite Memory
engine = record {
  prepare = λ sql db. true;
  step = run_step;
  rows = λ sql bound db. rows_of sql bound db.now;
  exec = run_text;
  changes = λ db. db.changed;
  last_insert_rowid = λ db. db.rowid;
  column_text = text_of;
  column_int = int_of;
}

abbrev pub empty_memory : Memory
empty_memory = record {
  now = record { users = []; chats = 0; members = []; messages = 0 };
  before = none;
  rowid = pos 0;
  changed = 0;
}

-- The connection to it.
abbrev pub fresh : Connection Memory
fresh = record { store = empty_memory; open_statements = 0 }
