-- ===== src/Storage/Accounts.antt =====
-- UserRepository as an account book: a map from user names to stored hashes.
use cvcn.Common.{
  ◌≡◌, ◌≢◌, refl, ◌⊎◌, inl, inr, Bool, true, false, List, [], ◌∷◌, Option, none, some, ltb, if_rule,
  Option-cases,
}
use cvcn.Wire.Bytes.{Bytes}
use cvcn.Storage.{
  Sqlite, insert_user_sql, delete_user_sql, password_hash_sql, text, c_str, Connection, C, ◌>>=◌,
  pure, finalize, prepared, step_done, step_rows,
}
use cvcn.Storage.Users.{add_user, delete_user, get_user_password_hash, has_chars, user_exists}

-- What a book says of a name: the hash of its user.
abbrev pub Book : Type 0
Book = Bytes → Option Bytes

-- The book after is the one before but for one name.
abbrev pub IsUpdate : Bytes → Option Bytes → Book → Book → Type 0
IsUpdate name entry book book' =
    (book' name ≡ entry) × ((other : Bytes) → other ≢ name → book' other ≡ book other)

module _ {Db : Type 0} (q : Sqlite Db) (book : Db → Book) where
  -- What the UNIQUE and NOT NULL columns of the table of users promise of the three statements, and
  -- sqlite3_changes of the second: an insertion is done for new names only, a deletion is of the row
  -- with both texts, and a query gives the row of the name, or no row if it fails.
  pub record IsUserTable : Type 0 where
    pub inserted :
        (name hash : Bytes) (db : Db)
        → let (done, db') = q.step insert_user_sql (text name ∷ text hash ∷ []) db in
          ((done ≡ true) × (book db name ≡ none) × IsUpdate name (some hash) (book db) (book db'))
          ⊎ ((done ≡ false) × ((other : Bytes) → book db' other ≡ book db other))
    pub deleted :
        (name hash : Bytes) (db : Db)
        → let (done, db') = q.step delete_user_sql (text name ∷ text hash ∷ []) db in
          ((done ≡ true)
            × (ltb 0 (q.changes db') ≡ true)
            × (book db name ≡ some hash)
            × IsUpdate name none (book db) (book db'))
          ⊎ (((done ≡ false) ⊎ (ltb 0 (q.changes db') ≡ false))
              × ((other : Bytes) → book db' other ≡ book db other))
    pub selected :
        (name : Bytes) (db : Db)
        → (q.rows password_hash_sql (text name ∷ []) db
            ≡ elim (book db name) [ none ↦ [] | some hash ↦ (text hash ∷ []) ∷ [] ])
          ⊎ (q.rows password_hash_sql (text name ∷ []) db ≡ [])
    pub text_column : (t : Bytes) → q.column_text (text t) ≡ some t

-- The calls of the repository that are about accounts, and what they answer.
pub data Request : Type 0 where
  add delete : Bytes → Bytes → Request
  look_up exists : Bytes → Request

pub data Answer : Type 0 where
  flag : Bool → Answer
  hash_of : Bytes → Answer

-- The hash that a book gives for a name: the empty text for an unknown one.
abbrev pub stored_hash : Option Bytes → Bytes
stored_hash none = []
stored_hash (some hash) = c_str hash

-- What a request with its answer means for the book. A change may fail, and then changes nothing; a
-- query may fail, and then answers as for a name that is not known.
pub data Means : Request → Answer → Book → Book → Type 0 where
  added :
      {name hash : Bytes} {b b' : Book}
      → b (c_str name) ≡ none
      → IsUpdate (c_str name) (some (c_str hash)) b b'
      → Means (add name hash) (flag true) b b'
  not_added :
      {name hash : Bytes} {b b' : Book}
      → ((other : Bytes) → b' other ≡ b other)
      → Means (add name hash) (flag false) b b'
  gone :
      {name hash : Bytes} {b b' : Book}
      → b (c_str name) ≡ some (c_str hash)
      → IsUpdate (c_str name) none b b'
      → Means (delete name hash) (flag true) b b'
  not_deleted :
      {name hash : Bytes} {b b' : Book}
      → ((other : Bytes) → b' other ≡ b other)
      → Means (delete name hash) (flag false) b b'
  looked_up :
      {name : Bytes} {b : Book} → Means (look_up name) (hash_of (stored_hash (b (c_str name)))) b b
  known :
      {name : Bytes} {b : Book}
      → Means (exists name) (flag (has_chars (stored_hash (b (c_str name))))) b b
  not_looked_up : {name : Bytes} {b : Book} → Means (look_up name) (hash_of []) b b
  not_known : {name : Bytes} {b : Book} → Means (exists name) (flag false) b b

-- A run of a book: requests, their answers, the book before and after.
pub data Runs : List Request → List Answer → Book → Book → Type 0 where
  rests : {b : Book} → Runs [] [] b b
  goes :
      {r : Request} {a : Answer} {rs : List Request} {answers : List Answer} {b b' b'' : Book}
      → Means r a b b'
      → Runs rs answers b' b''
      → Runs (r ∷ rs) (a ∷ answers) b b''

module _ {Db : Type 0} (q : Sqlite Db) where
  -- The repository's call for a request.
  unfoldable pub perform : Request → C Db Answer
  perform (add name hash) = do done ← add_user q name hash; pure (flag done)
  perform (delete name hash) = do done ← delete_user q name hash; pure (flag done)
  perform (look_up name) = do hash ← get_user_password_hash q name; pure (hash_of hash)
  perform (exists name) = do found ← user_exists q name; pure (flag found)

  unfoldable pub perform_all : List Request → C Db (List Answer)
  perform_all [] = pure []
  perform_all (r ∷ rs) = do a ← perform r; answers ← perform_all rs; pure (a ∷ answers)

module _ {Db : Type 0} (q : Sqlite Db) (book : Db → Book) (table : IsUserTable q book) where
  abbrev IsMeant : Request → Db → Answer × Connection Db → Type 0
  IsMeant r db (a, c') = Means r a (book db) (book c'.store)

  pub get_user_password_hash-book :
      (name : Bytes) (c : Connection Db)
      → q.prepare password_hash_sql c.store ≡ true
      → q.rows password_hash_sql (text (c_str name) ∷ []) c.store
        ≡ elim (book c.store (c_str name)) [ none ↦ [] | some hash ↦ (text hash ∷ []) ∷ [] ]
      → (get_user_password_hash q name c).0 ≡ stored_hash (book c.store (c_str name))
  unfolding get_user_password_hash prepared step_rows finalize ◌>>=◌ pure
  get_user_password_hash-book name c opened answered = rw opened (
      rw answered (elim (Option-cases (book c.store (c_str name))) [
        | inl e ↦ rw e refl
        | inr (h, e) ↦ rw e (rw (table.text_column h) refl)
      ]))

  pub add_user-book :
      (name hash : Bytes) (c : Connection Db)
      → (add_user q name hash c).0 ≡ true
      → book (add_user q name hash c).1.store (c_str name) ≡ some (c_str hash)
  unfolding add_user prepared step_done finalize ◌>>=◌ pure
  add_user-book name hash c =
      if_rule
        (λ (r : Bool × Connection Db). r.0 ≡ true → book r.1.store (c_str name) ≡ some (c_str hash))
        (q.prepare insert_user_sql c.store) _ _
        (λ opened e. elim (table.inserted (c_str name) (c_str hash) c.store) [
          | inl (done, free, set) ↦ set.0
          | inr (failed, same) ↦ absurd (cc)
        ])
        (λ broken e. absurd (cc))
