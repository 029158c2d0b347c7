-- ===== src/Tests/Memory/Laws.antt =====
-- The engine in memory keeps what the repositories rely on.
use cvcn.Common.{
  ◌≡◌, ◌≢◌, refl, sym, ap, ◌∙◌, ◌⊎◌, inl, inr, arith, Bool, true, false, List, [], ◌∷◌, Option,
  none, some, if◌then◌else◌, if_rule, Bool-cases, Option-cases, ltb,
}
use cvcn.Wire.Bytes.{Bytes}
use cvcn.Server.Services.{same_text}
use cvcn.Server.Outcomes.{same_text_iff}
use cvcn.Storage.{
  ℤ, pos, negsuc, Value, integer, begin_sql, commit_sql, rollback_sql, insert_member_sql,
}
use cvcn.Storage.Laws.{
  Has, at_head, behind, IsSettled, IsWithin, IsInside, IsTransactional, IsRelational,
}
use cvcn.Storage.Accounts.{Book, IsUpdate, IsUserTable}
use cvcn.Tests.Memory.{
  Tables, Memory, same_int, hash_in, without, is_member, members_in, insert_user, remove_user,
  add_member, run_step, rows_of, run_text, engine,
}

abbrev pub tables : Memory → Tables
tables db = db.now

abbrev pub pending : Memory → Option Tables
pending db = db.before

abbrev pub book : Memory → Book
book db name = hash_in name db.now.users

rollback_lem :
    (t : Tables) (db : Memory)
    → IsWithin tables pending t db
    → IsSettled tables pending t (run_text rollback_sql db).1
unfolding run_text
rollback_lem t db (inl e) = rw e (refl, refl)
rollback_lem t db (inr (e, same)) = rw e (refl, same)

add_member_lem :
    (chat user : ℤ) (t : Tables) (db : Memory)
    → pending db ≡ some t
    → IsInside tables pending t (add_member chat user db)
unfolding add_member
add_member_lem chat user t db e =
    if_rule (IsInside tables pending t) (is_member chat user db.now.members) _ _
      (λ there. (λ h. absurd (cc), λ h. inl e)) (λ fresh. (λ h. e, λ h. absurd (cc)))

member_inside_lem :
    (bound : List Value) (t : Tables) (db : Memory)
    → pending db ≡ some t
    → IsInside tables pending t (run_step insert_member_sql bound db)
unfolding run_step
member_inside_lem (integer chat ∷ integer user ∷ []) t db e = add_member_lem chat user t db e
member_inside_lem bound t db e = (λ h. absurd (cc), λ h. inl e)

begin_lem :
    (db : Memory)
    → pending db ≡ none
    → ((run_text begin_sql db).0 ≡ true) × (pending (run_text begin_sql db).1 ≡ some db.now)
unfolding run_text
begin_lem db e = rw e (refl, refl)

commit_lem :
    (t : Tables) (db : Memory)
    → pending db ≡ some t
    → ((run_text commit_sql db).0 ≡ true)
      × IsSettled tables pending (tables db) (run_text commit_sql db).1
unfolding run_text
commit_lem t db e = rw e (refl, (refl, refl))

pub engine-IsTransactional : IsTransactional tables pending engine
unfolding run_step run_text
engine-IsTransactional = record {
  begin_done = λ db e done. (begin_lem db e).1;
  begin_failed = λ db e failed. absurd (let (done, p) = begin_lem db e in cc);
  insert_chat_inside = λ t db e. (λ h. e, λ h. absurd (cc));
  member_inside = member_inside_lem;
  message_inside = λ bound t db e. (λ h. e, λ h. absurd (cc));
  commit_done = λ t db e done. (commit_lem t db e).1;
  commit_failed = λ t db e failed. absurd (let (done, p) = commit_lem t db e in cc);
  rollback_inside = rollback_lem;
}

same_int_iff : (a b : ℤ) → (same_int a b ≡ true) → a ≡ b
same_int_iff (pos a) (pos b) e = ap pos (ground arith)
same_int_iff (pos a) (negsuc b) e = absurd (cc)
same_int_iff (negsuc a) (pos b) e = absurd (cc)
same_int_iff (negsuc a) (negsuc b) e = ap negsuc (ground arith)

same_int_refl : (a : ℤ) → same_int a a ≡ true
same_int_refl (pos a) = ground arith
same_int_refl (negsuc a) = ground arith

member_inserted_lem :
    (chat user : ℤ) (db : Memory)
    → (add_member chat user db).0 ≡ true
    → Has (integer user ∷ []) (members_in chat (add_member chat user db).1.now.members)
unfolding add_member members_in
member_inserted_lem chat user db =
    if_rule
      (λ (r : Bool × Memory).
        r.0 ≡ true → Has (integer user ∷ []) (members_in chat r.1.now.members))
      (is_member chat user db.now.members) _ _ (λ there e. absurd (cc))
      (λ fresh e. rw (same_int_refl chat) at_head)

member_kept_lem :
    (chat user : ℤ) (row : List Value) (db : Memory)
    → Has row (members_in chat db.now.members)
    → (add_member chat user db).0 ≡ true
    → Has row (members_in chat (add_member chat user db).1.now.members)
unfolding add_member members_in
member_kept_lem chat user row db has =
    if_rule (λ (r : Bool × Memory). r.0 ≡ true → Has row (members_in chat r.1.now.members))
      (is_member chat user db.now.members) _ _ (λ there e. absurd (cc))
      (λ fresh e. rw (same_int_refl chat) (behind has))

pub engine-IsRelational : IsRelational tables pending engine
unfolding run_step rows_of
engine-IsRelational = record {
  rows_tables = λ sql bound a b e. ap (rows_of sql bound) e;
  member_inserted = λ chat user db done. member_inserted_lem chat user db done;
  member_kept = λ chat user row db has done. member_kept_lem chat user row db has done;
}

same_text_refl : (t : Bytes) → same_text t t ≡ true
same_text_refl t = (same_text_iff t t).1 refl

differs : (a b : Bytes) → b ≢ a → same_text a b ≡ false
differs a b ne = elim (Bool-cases (same_text a b)) [
  | inl same ↦ absurd (ne (sym ((same_text_iff a b).0 same)))
  | inr other ↦ other
]

without-IsUpdate :
    (name : Bytes) (users : List (Bytes × Bytes))
    → (hash_in name (without name users) ≡ none)
      × ((other : Bytes) → other ≢ name → hash_in other (without name users) ≡ hash_in other users)
unfolding hash_in without
without-IsUpdate name [] = (refl, λ other ne. refl)
without-IsUpdate name (user ∷ rest) =
    let (absent, others) = without-IsUpdate name rest in
    elim (Bool-cases (same_text user.0 name)) [
      | inl same ↦ (
        rw same absent,
        λ other ne. rw same (
            rw (differs user.0 other (λ e. ne (e ∙ (same_text_iff user.0 name).0 same)))
              (others other ne)),
      )
      | inr differ ↦ (
        rw differ (rw differ absent),
        λ other ne.
            rw differ
              (ap (λ r. if same_text user.0 other then some user.1 else r) (others other ne)),
      )
    ]

insert_user-new :
    (name hash : Bytes) (db : Memory)
    → book db name ≡ none
    → insert_user name hash db
      ≡ (true, record db { now = record db.now { users = (name, hash) ∷ db.now.users } })
unfolding insert_user
insert_user-new name hash db e = rw (e, insert_user) refl

insert_user-taken :
    (name hash h : Bytes) (db : Memory)
    → book db name ≡ some h
    → insert_user name hash db ≡ (false, db)
unfolding insert_user
insert_user-taken name hash h db e = rw (e, insert_user) refl

insert_user_lem :
    (name hash : Bytes) (db : Memory)
    → let (done, db') = insert_user name hash db in
      ((done ≡ true) × (book db name ≡ none) × IsUpdate name (some hash) (book db) (book db'))
      ⊎ ((done ≡ false) × ((other : Bytes) → book db' other ≡ book db other))
unfolding hash_in
insert_user_lem name hash db = elim (Option-cases (hash_in name db.now.users)) [
  | inl free ↦ rw (insert_user-new name hash db free) (
      inl
        (refl, free, (rw (same_text_refl name) refl, λ other ne. rw (differs name other ne) refl)))
  | inr (h, taken) ↦ rw (insert_user-taken name hash h db taken) (inr (refl, λ other. refl))
]

remove_user-unknown :
    (name hash : Bytes) (db : Memory)
    → book db name ≡ none
    → remove_user name hash db ≡ (true, record db { changed = 0 })
unfolding remove_user
remove_user-unknown name hash db e = rw (e, remove_user) refl

remove_user-right :
    (name hash : Bytes) (db : Memory)
    → book db name ≡ some hash
    → remove_user name hash db
      ≡ (true, record db { now = record db.now { users = without name db.now.users }; changed = 1 })
unfolding remove_user
remove_user-right name hash db e = rw (e, remove_user) (rw (same_text_refl hash) refl)

remove_user-wrong :
    (name hash h : Bytes) (db : Memory)
    → book db name ≡ some h
    → same_text h hash ≡ false
    → remove_user name hash db ≡ (true, record db { changed = 0 })
unfolding remove_user
remove_user-wrong name hash h db e wrong = rw (e, remove_user) (rw wrong refl)

remove_user_lem :
    (name hash : Bytes) (db : Memory)
    → let (done, db') = remove_user name hash db in
      ((done ≡ true)
        × (ltb 0 db'.changed ≡ true)
        × (book db name ≡ some hash)
        × IsUpdate name none (book db) (book db'))
      ⊎ (((done ≡ false) ⊎ (ltb 0 db'.changed ≡ false))
          × ((other : Bytes) → book db' other ≡ book db other))
remove_user_lem name hash db = elim (Option-cases (hash_in name db.now.users)) [
  | inl unknown ↦ rw (remove_user-unknown name hash db unknown) (inr (inr refl, λ other. refl))
  | inr (h, held) ↦ elim (Bool-cases (same_text h hash)) [
    | inl same ↦
        let right = held ∙ ap some ((same_text_iff h hash).0 same) in
        rw (remove_user-right name hash db right)
          (inl (refl, refl, right, without-IsUpdate name db.now.users))
    | inr differ ↦ rw (remove_user-wrong name hash h db held differ) (inr (inr refl, λ other. refl))
  ]
]

pub engine-IsUserTable : IsUserTable engine book
unfolding run_step rows_of
engine-IsUserTable = record {
  inserted = insert_user_lem;
  deleted = remove_user_lem;
  selected = λ name db. inl refl;
  text_column = λ t. refl;
}
