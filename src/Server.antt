-- ===== src/Server.antt =====
-- What the services and the dispatcher of the server work on, and the calls they make on it.
pub mod Registry
pub mod Services
pub mod Dispatcher
pub mod Safety
pub mod Outcomes
pub mod Truncated
use cvcn.Common.{ℕ, Bool, true, false, List, [], ◌∷◌, ◌++◌, Option, none, some, if◌then◌else◌}
use cvcn.Common.Dict.{Dict, lookup, insert}
use cvcn.Wire.Bytes.{Bytes}
use cvcn.Wire.Packet.{ChatListEntry}
use cvcn.Session.{ClientSession, set_authenticated}

-- server/net/ResultQueue.h: a command from a worker to the main thread.
pub data SessionCommand : Type 0 where
  send_raw_command : ℕ → Bytes → SessionCommand
  close_command task_done_command : ℕ → SessionCommand

-- The database, the registry, the session objects by address, and the result queue, oldest command
-- first. An address that `heap` does not hold is dangling.
pub record Server (Db : Type 0) : Type 0 where
  pub db : Db
  pub registry : Dict ℕ
  pub heap : Dict ClientSession
  pub results : List SessionCommand

-- server/storage/IUserRepository.h, IChatRepository.h and IMessageRepository.h. An `int` identifier
-- that may be -1 is `none` for it.
pub record Repositories (Db : Type 0) : Type 0 where
  pub add_user : Bytes → Bytes → Db → Bool × Db
  pub delete_user : Bytes → Bytes → Db → Bool × Db
  pub get_user_password_hash : Bytes → Db → Bytes
  pub user_exists : Bytes → Db → Bool
  pub get_user_id : Bytes → Db → Option ℕ
  pub find_users : Bytes → ℕ → Db → List Bytes
  pub find_or_create_direct_chat : ℕ → ℕ → Db → Option ℕ × Db
  pub get_user_chats : ℕ → Db → List ChatListEntry
  pub get_chat_member_ids : ℕ → Db → List ℕ
  pub save_message : ℕ → ℕ → Bytes → Db → Bool × Db

-- A call on the server: `none` is a use of a session object that is deleted.
abbrev pub M : Type 0 → Type 0 → Type 0
M Db A = Server Db → Option (A × Server Db)

module _ {Db : Type 0} where
  infixl 5 ◌>>=◌ ◌>>◌
  unfoldable pub ◌>>=◌ : {A B : Type 0} → M Db A → (A → M Db B) → M Db B
  ◌>>=◌ m f st = elim (m st) [ none ↦ none | some (a, st') ↦ f a st' ]

  abbrev pub ◌>>◌ : {B : Type 0} → M Db (Unit {0}) → M Db B → M Db B
  m >> k = m >>= λ _. k

  unfoldable pub pure : {A : Type 0} → A → M Db A
  pure a st = some (a, st)

  -- A call of a repository that only reads, and one that may write.
  unfoldable pub asks : {A : Type 0} → (Db → A) → M Db A
  asks f st = some (f st.db, st)

  unfoldable pub updates : {A : Type 0} → (Db → A × Db) → M Db A
  updates f st = let (a, db') = f st.db in some (a, record st { db = db' })

  -- `session->`
  unfoldable pub deref : ℕ → M Db ClientSession
  deref session st = elim (lookup session st.heap) [ none ↦ none | some s ↦ some (s, st) ]

  -- `ResultQueue::push`
  unfoldable pub push : SessionCommand → M Db (Unit {0})
  push command st = some (tt, record st { results = st.results ++ command ∷ [] })

  -- `ClientSession::sendRaw`, `requestClose` and `setAuthenticated`
  unfoldable pub send_raw : ℕ → Bytes → M Db (Unit {0})
  send_raw session packet = do s ← deref session; push (send_raw_command s.file_descriptor packet)

  unfoldable pub request_close : ℕ → M Db (Unit {0})
  request_close session = do s ← deref session; push (close_command s.file_descriptor)

  unfoldable pub put_session : ℕ → ClientSession → M Db (Unit {0})
  put_session session s st = some (tt, record st { heap = insert session s st.heap })

  unfoldable pub authenticate : ℕ → Option ℕ → Bytes → M Db (Unit {0})
  authenticate session user_id username = do
    s ← deref session
    put_session session (set_authenticated user_id username s)
