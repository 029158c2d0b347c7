-- ===== src/Storage/Races.antt =====
-- The workers share one connection: what a message that another worker saves between two calls of
-- findOrCreateDirectChat meets.
use cvcn.Common.{ℕ, ◌≡◌, refl, inl, inr, Bool, true, false, ◌∷◌, [], Option, some, if_rule}
use cvcn.Wire.Bytes.{Bytes}
use cvcn.Storage.{
  ℤ, minus_one, Sqlite, insert_message_sql, Connection, ◌>>=◌, pure, finalize, prepared, step_done,
}
use cvcn.Storage.Users.{save_message}
use cvcn.Storage.Chats.{insert_members, fill_chat, inserted_id}
use cvcn.Storage.Laws.{IsTransactional, IsRelational, IsSettled}
use cvcn.Storage.Transaction.{insert_members-IsFilled}

module _ {Db Tables : Type 0} (q : Sqlite Db) (tables : Db → Tables) (pending : Db → Option Tables)
    (trans : IsTransactional tables pending q) (rel : IsRelational tables pending q) where
  -- A message that saveMessage reports as saved inside a transaction is only a part of it.
  saved_inside :
      (chat : ℕ) (sender : ℤ) (words : Bytes) (t : Tables) (c : Connection Db)
      → pending c.store ≡ some t
      → (save_message q chat sender words c).0 ≡ true
      → pending (save_message q chat sender words c).1.store ≡ some t
  unfolding save_message prepared step_done finalize ◌>>=◌ pure
  saved_inside chat sender words t c h =
      if_rule (λ (r : Bool × Connection Db). r.0 ≡ true → pending r.1.store ≡ some t)
        (q.prepare insert_message_sql c.store) _ _
        (λ ready e. (trans.message_inside _ t c.store h).0 e) (λ broken e. absurd (cc))

  -- A worker is inside the transaction of a new chat, with the tables `t` before it, and has
  -- inserted the chat; another worker saves a message and is told that it is saved; the first goes
  -- on with the row number that is the last one now, and its members cannot be inserted. Then the
  -- tables are `t` again, without the message that was reported as saved.
  pub fill_chat-loses :
      (u v : ℤ) (chat : ℕ) (sender : ℤ) (words : Bytes) (t : Tables) (c : Connection Db)
      → pending c.store ≡ some t
      → (save_message q chat sender words c).0 ≡ true
      → (let c' = (save_message q chat sender words c).1 in
          (insert_members q (inserted_id q c').0 (u ∷ v ∷ []) c').0 ≡ false)
      → let (answer, c'') = fill_chat q u v (save_message q chat sender words c).1 in
        (answer ≡ minus_one) × IsSettled tables pending t c''.store
  unfolding fill_chat inserted_id ◌>>=◌ pure
  fill_chat-loses u v chat sender words t c h saved fails =
      let c' = (save_message q chat sender words c).1 in
      let new_chat = (inserted_id q c').0 in
      elim (insert_members-IsFilled q tables pending trans rel new_chat u v t c'
        (saved_inside chat sender words t c h saved)) [
          | inl (done, p, mu, mv) ↦ absurd (cc)
          | inr (refused, settled) ↦ rw refused (refl, settled)
        ]
