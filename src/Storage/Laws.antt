-- ===== src/Storage/Laws.antt =====
-- What the repositories rely on of SQLite, as it documents its transactions and its statements.
-- `tables` is the content that the connection sees, `pending` what a ROLLBACK brings back: none
-- outside a transaction.
use cvcn.Common.{◌≡◌, ◌⊎◌, Bool, true, false, List, [], ◌∷◌, Option, none, some}
use cvcn.Storage.{
  ℤ, Sqlite, insert_member_sql, members_sql, insert_message_sql, begin_sql, insert_chat_sql,
  commit_sql, rollback_sql, Sql, Value, integer,
}

-- That the list has the element.
pub data Has {A : Type 0} : A → List A → Type 0 where
  at_head : {x : A} {xs : List A} → Has x (x ∷ xs)
  behind : {x y : A} {xs : List A} → Has x xs → Has x (y ∷ xs)

module _ {Db Tables : Type 0} (tables : Db → Tables) (pending : Db → Option Tables) where
  -- No transaction is open, and the tables are `t`.
  abbrev pub IsSettled : Tables → Db → Type 0
  IsSettled t db = (pending db ≡ none) × (tables db ≡ t)

  -- A transaction that began with the tables `t` is open, or SQLite has rolled it back by itself.
  abbrev pub IsWithin : Tables → Db → Type 0
  IsWithin t db = (pending db ≡ some t) ⊎ IsSettled t db

  -- What a statement does inside a transaction: it stays open if the statement is done.
  abbrev pub IsInside : Tables → Bool × Db → Type 0
  IsInside t r = (r.0 ≡ true → pending r.1 ≡ some t) × (r.0 ≡ false → IsWithin t r.1)

  pub record IsTransactional (q : Sqlite Db) : Type 0 where
    pub begin_done :
        (db : Db)
        → pending db ≡ none
        → (q.exec begin_sql db).0 ≡ true
        → pending (q.exec begin_sql db).1 ≡ some (tables db)
    pub begin_failed :
        (db : Db)
        → pending db ≡ none
        → (q.exec begin_sql db).0 ≡ false
        → IsSettled (tables db) (q.exec begin_sql db).1
    pub insert_chat_inside :
        (t : Tables) (db : Db) → pending db ≡ some t → IsInside t (q.exec insert_chat_sql db)
    pub member_inside :
        (bound : List Value) (t : Tables) (db : Db)
        → pending db ≡ some t
        → IsInside t (q.step insert_member_sql bound db)
    pub message_inside :
        (bound : List Value) (t : Tables) (db : Db)
        → pending db ≡ some t
        → IsInside t (q.step insert_message_sql bound db)
    pub commit_done :
        (t : Tables) (db : Db)
        → pending db ≡ some t
        → (q.exec commit_sql db).0 ≡ true
        → IsSettled (tables db) (q.exec commit_sql db).1
    pub commit_failed :
        (t : Tables) (db : Db)
        → pending db ≡ some t
        → (q.exec commit_sql db).0 ≡ false
        → IsWithin t (q.exec commit_sql db).1
    pub rollback_inside :
        (t : Tables) (db : Db) → IsWithin t db → IsSettled t (q.exec rollback_sql db).1

  -- A query sees the tables only, and an inserted row of chat_members stays as others are inserted.
  pub record IsRelational (q : Sqlite Db) : Type 0 where
    pub rows_tables :
        (sql : Sql) (bound : List Value) (a b : Db)
        → tables a ≡ tables b
        → q.rows sql bound a ≡ q.rows sql bound b
    pub member_inserted :
        (chat user : ℤ) (db : Db)
        → (q.step insert_member_sql (integer chat ∷ integer user ∷ []) db).0 ≡ true
        → Has (integer user ∷ []) (
            q.rows members_sql
              (integer chat ∷ [])
              (q.step insert_member_sql (integer chat ∷ integer user ∷ []) db).1)
    pub member_kept :
        (chat user : ℤ) (row : List Value) (db : Db)
        → Has row (q.rows members_sql (integer chat ∷ []) db)
        → (q.step insert_member_sql (integer chat ∷ integer user ∷ []) db).0 ≡ true
        → Has row (
            q.rows members_sql
              (integer chat ∷ [])
              (q.step insert_member_sql (integer chat ∷ integer user ∷ []) db).1)
