-- ===== src/Storage/Interface.antt =====
-- The repositories over SQLite as what the services call, and registration with login on them.
use cvcn.Common.{
  ℕ, ◌≡◌, ◌≢◌, inl, inr, refl, ap, ◌∙◌, subst, arith, true, false, List, [], ◌∷◌, ◌++◌, Option,
  none, some, All,
}
use cvcn.Common.Dict.{lookup}
use cvcn.Wire.Bytes.{Bytes}
use cvcn.Wire.Packet.{PacketHeaderRaw, Credentials, register_response_data}
use cvcn.Wire.Builder.{build_payload}
use cvcn.Validator.{validate_password}
use cvcn.Validator.Spec.{IsCredentialChar, validate_password_iff}
use cvcn.Session.{ClientSession}
use cvcn.Server.{Server, Repositories, send_raw_command, ◌>>=◌, pure, asks, updates}
use cvcn.Server.Safety.{send_raw_live}
use cvcn.Server.Services.{password_hash, respond, handle_register_request, handle_auth_request}
use cvcn.Server.Outcomes.{answered, handle_auth_request-outcome}
use cvcn.Storage.{ℤ, pos, negsuc, Sqlite, password_hash_sql, text, c_str, Connection}
use cvcn.Storage.Users.{
  add_user, delete_user, get_user_password_hash, user_exists, get_user_id, save_message,
}
use cvcn.Storage.Chats.{find_users, find_or_create_direct_chat, get_user_chats, get_chat_member_ids}
use cvcn.Storage.Accounts.{
  Book, IsUserTable, stored_hash, add_user-book, get_user_password_hash-book,
}

-- An `int` that the services take as an identifier: no number below 0 is one.
abbrev pub id_of : ℤ → Option ℕ
id_of (pos n) = some n
id_of (negsuc n) = none

abbrev pub ids_of : List ℤ → List ℕ
ids_of [] = []
ids_of (z ∷ zs) = let rest = ids_of zs in elim (id_of z) [ none ↦ rest | some n ↦ n ∷ rest ]

-- `IUserRepository`, `IChatRepository` and `IMessageRepository` by the classes over SQLite.
unfoldable pub sqlite_repositories : {Db : Type 0} → Sqlite Db → Repositories (Connection Db)
sqlite_repositories q = record {
  add_user = λ name hash. add_user q name hash;
  delete_user = λ name hash. delete_user q name hash;
  get_user_password_hash = λ name c. (get_user_password_hash q name c).0;
  user_exists = λ name c. (user_exists q name c).0;
  get_user_id = λ name c. id_of (get_user_id q name c).0;
  find_users = λ query user_id c. (find_users q query (pos user_id) c).0;
  find_or_create_direct_chat =
      λ u v c. let (chat, c') = find_or_create_direct_chat q (pos u) (pos v) c in (id_of chat, c');
  get_user_chats = λ user_id c. (get_user_chats q (pos user_id) c).0;
  get_chat_member_ids = λ chat_id c. ids_of (get_chat_member_ids q chat_id c).0;
  save_message = λ chat_id sender words. save_message q chat_id (pos sender) words;
}

-- A text without NUL is bound whole.
c_str-whole : (s : Bytes) → All IsCredentialChar s → c_str s ≡ s
unfolding c_str
c_str-whole [] h = refl
c_str-whole (c ∷ cs) (h, hs) = ground (arith, h, c_str-whole cs hs)

password_hash-whole :
    (password : Bytes)
    → validate_password password ≡ true
    → c_str (password_hash password) ≡ password_hash password
unfolding c_str password_hash
password_hash-whole password h =
    let (some_chars, few, chars) = (validate_password_iff password).0 h in
    rw (c_str-whole password chars) refl

-- The query for the hash of a name is prepared in a store and gives a row there.
abbrev pub HasRow : {Db : Type 0} → Sqlite Db → Bytes → Db → Type 0
HasRow q name db =
    (q.prepare password_hash_sql db ≡ true)
    × (q.rows password_hash_sql (text (c_str name) ∷ []) db ≢ [])

module _ {Db : Type 0} (q : Sqlite Db) (book : Db → Book) (table : IsUserTable q book) where
  -- After addUser the hash that the services ask for is the one that was added, if the query does
  -- not fail.
  added-hash :
      (name password : Bytes) (c : Connection Db)
      → validate_password password ≡ true
      → (add_user q name (password_hash password) c).0 ≡ true
      → HasRow q name (add_user q name (password_hash password) c).1.store
      → (get_user_password_hash q name (add_user q name (password_hash password) c).1).0
        ≡ password_hash password
  added-hash name password c valid done (opened, some_row) =
      let hash = password_hash password in
      let c' = (add_user q name hash c).1 in
      let whole = password_hash-whole password valid in
      get_user_password_hash-book q book table name c' opened
        (elim (table.selected (c_str name) c'.store) [
          | inl whole_row ↦ whole_row
          | inr failed ↦ absurd (some_row failed)
        ])
      ∙ ap stored_hash (add_user-book q book table name hash c done)
      ∙ ap c_str whole
      ∙ whole

  -- A register request whose user name is not known and whose user can be added is answered with
  -- success, and a login with the same credentials on the same session, right behind it, succeeds if
  -- its query for the hash can be prepared and gives a row: the stored hash has the whole password,
  -- since a password that passes the rules has no NUL.
  pub register-log_in :
      (header header' : PacketHeaderRaw) (c : Credentials) (session : ℕ)
      (st : Server (Connection Db)) (s : ClientSession)
      → lookup session st.heap ≡ some s
      → validate_password c.password ≡ true
      → (user_exists q c.username st.db).0 ≡ false
      → (add_user q c.username (password_hash c.password) st.db).0 ≡ true
      → HasRow q c.username (add_user q c.username (password_hash c.password) st.db).1.store
      → let repo = sqlite_repositories q in
        let st' : Server (Connection Db) = record st {
          db = (add_user q c.username (password_hash c.password) st.db).1;
          results =
              st.results
              ++ send_raw_command s.file_descriptor
                  (build_payload header.message_id header.session_id (register_response_data true))
                ∷ [];
        } in
        (handle_register_request repo header c session st ≡ some (tt, st'))
        × (handle_auth_request repo header' c session st'
            ≡ some (tt, answered repo header' c session s true st'))
  unfolding handle_register_request respond asks updates pure ◌>>=◌ sqlite_repositories
  register-log_in header header' c session st s e valid fresh done found =
      let repo = sqlite_repositories q in
      let c' = (add_user q c.username (password_hash c.password) st.db).1 in
      (
        rw fresh (rw done (send_raw_live session _ (record st { db = c' }) s e)),
        (let st' : Server (Connection Db) = record st { db = c'; results = _ } in
            let (success, exactly, answer) =
              handle_auth_request-outcome repo header' c session st' s e in
            let right = exactly.1 (added-hash c.username c.password st.db valid done found) in
            subst
              (λ b.
                handle_auth_request repo header' c session st'
                ≡ some (tt, answered repo header' c session s b st'))
              right answer),
      )
