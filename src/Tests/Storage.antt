-- ===== src/Tests/Storage.antt =====
-- Runs of the repositories on the engine in memory.
use cvcn.Common.{◌≡◌, refl, true, false, List, [], ◌∷◌, some}
use cvcn.Common.Dict.{lookup}
use cvcn.Wire.Bytes.{Bytes}
use cvcn.Wire.Packet.{register_response_data}
use cvcn.Wire.Builder.{build_payload}
use cvcn.Validator.{is_credential_char, every, validate, validate_password}
use cvcn.Session.{new_session}
use cvcn.Server.{Server, send_raw_command}
use cvcn.Server.Services.{same_text, password_hash, handle_register_request, handle_auth_request}
use cvcn.Server.Outcomes.{answered}
use cvcn.Storage.{
  pos, minus_one, c_str, find_chat_sql, integer, Connection, ◌>>=◌, pure, finalize, prepared,
  step_done, step_rows, exec,
}
use cvcn.Storage.Users.{
  add_user, has_changes, delete_user, get_user_id, get_user_password_hash, user_exists,
  save_message, first_int,
}
use cvcn.Storage.Chats.{
  insert_member, insert_members, commit_chat, inserted_id, fill_chat, insert_chat, roll_back,
  create_direct_chat, find_or_create_direct_chat, find_users, get_user_chats, get_chat_member_ids,
}
use cvcn.Storage.Laws.{IsSettled}
use cvcn.Storage.Statements.{IsBalanced, repositories-finalize}
use cvcn.Storage.Transaction.{IsWhole, find_or_create-IsWhole}
use cvcn.Storage.Races.{fill_chat-loses}
use cvcn.Storage.Accounts.{
  Request, add, delete, look_up, exists, flag, hash_of, perform, perform_all,
}
use cvcn.Storage.Interface.{sqlite_repositories, HasRow, register-log_in}
use cvcn.Tests.Memory.{
  Memory, hash_in, without, is_member, insert_user, remove_user, add_member, run_step, rows_of,
  run_text, shared, engine, empty_memory, fresh,
}
use cvcn.Tests.Memory.Laws.{
  tables, pending, book, engine-IsTransactional, engine-IsRelational, engine-IsUserTable,
}
use cvcn.Tests.Net.{alice, login_header}

abbrev bob_hash : Bytes
bob_hash = b'h' ∷ b'!' ∷ []

abbrev bob : Bytes
bob = b'b' ∷ []

abbrev with_chat : Memory
with_chat = record empty_memory {
  now = record {
    users = [];
    chats = 1;
    members = (pos 1, pos 2) ∷ (pos 1, pos 1) ∷ [];
    messages = 0;
  };
  rowid = pos 1;
}

-- The chat is made once, and found after that.
chat_made :
    find_or_create_direct_chat engine (pos 1) (pos 2) fresh
    ≡ (pos 1, record { store = with_chat; open_statements = 0 })
unfolding find_or_create_direct_chat create_direct_chat insert_chat fill_chat inserted_id
    insert_members insert_member commit_chat prepared step_done step_rows exec finalize pure ◌>>=◌
    run_step rows_of add_member is_member run_text shared
chat_made = refl

chat_found :
    (find_or_create_direct_chat engine
      (pos 2)
      (pos 1)
      (record { store = with_chat; open_statements = 0 })).0
    ≡ pos 1
unfolding find_or_create_direct_chat prepared step_rows finalize pure ◌>>=◌ rows_of shared is_member
chat_found = refl

repositories-finalize_example :
    IsBalanced (add_user engine bob bob_hash)
    × IsBalanced (delete_user engine bob bob_hash)
    × IsBalanced (get_user_password_hash engine bob)
    × IsBalanced (user_exists engine bob)
    × IsBalanced (get_user_id engine bob)
    × IsBalanced (find_users engine bob (pos 1))
    × IsBalanced (find_or_create_direct_chat engine (pos 1) (pos 2))
    × IsBalanced (get_user_chats engine (pos 1))
    × IsBalanced (get_chat_member_ids engine 1)
    × IsBalanced (save_message engine 1 (pos 1) bob)
repositories-finalize_example = repositories-finalize engine bob bob_hash bob (pos 1) (pos 2) 1

find_or_create-IsWhole_example :
    IsWhole engine tables pending
      (pos 1)
      (pos 2)
      (tables empty_memory)
      (first_int engine
        (engine.rows find_chat_sql (integer (pos 1) ∷ integer (pos 2) ∷ []) empty_memory))
      (find_or_create_direct_chat engine (pos 1) (pos 2) fresh)
find_or_create-IsWhole_example =
    find_or_create-IsWhole engine tables pending engine-IsTransactional engine-IsRelational (pos 1)
      (pos 2) fresh refl

-- A worker has begun a chat of user 1 with itself, whose second row breaks the primary key.
abbrev begun : Connection Memory
begun = record fresh {
  store = record empty_memory {
    now = record empty_memory.now { chats = 1 };
    before = some empty_memory.now;
    rowid = pos 1;
  };
}

message_saved : (save_message engine 1 (pos 2) bob begun).0 ≡ true
unfolding save_message prepared step_done finalize pure ◌>>=◌ run_step
message_saved = refl

members_refused :
    (insert_members engine
      (inserted_id engine (save_message engine 1 (pos 2) bob begun).1).0
      (pos 1 ∷ pos 1 ∷ [])
      (save_message engine 1 (pos 2) bob begun).1).0
    ≡ false
unfolding save_message inserted_id insert_members insert_member roll_back prepared step_done exec
    finalize pure ◌>>=◌ run_step add_member is_member
members_refused = refl

fill_chat-loses_example :
    ((fill_chat engine (pos 1) (pos 1) (save_message engine 1 (pos 2) bob begun).1).0 ≡ minus_one)
    × IsSettled tables pending
        (tables empty_memory)
        (fill_chat engine (pos 1) (pos 1) (save_message engine 1 (pos 2) bob begun).1).1.store
fill_chat-loses_example =
    fill_chat-loses engine tables pending engine-IsTransactional engine-IsRelational (pos 1) (pos 1)
      1 (pos 2) bob (tables empty_memory) begun refl message_saved members_refused

abbrev requests : List Request
requests =
    add bob bob_hash
    ∷ add bob []
    ∷ exists bob
    ∷ delete bob []
    ∷ look_up bob
    ∷ delete bob bob_hash
    ∷ exists bob
    ∷ []

answers_of_requests :
    (perform_all engine requests fresh).0
    ≡ flag true
      ∷ flag false
      ∷ flag true
      ∷ flag false
      ∷ hash_of bob_hash
      ∷ flag true
      ∷ flag false
      ∷ []
unfolding perform_all perform add_user delete_user has_changes get_user_password_hash user_exists
    c_str prepared step_done step_rows finalize pure ◌>>=◌ run_step rows_of insert_user remove_user
    hash_in without same_text
answers_of_requests = refl

abbrev one_session : Server (Connection Memory)
one_session = record { db = fresh; registry = []; heap = (1, new_session 5) ∷ []; results = [] }

alice_valid : validate_password alice.password ≡ true
unfolding validate_password validate every is_credential_char
alice_valid = refl

alice_new : (user_exists engine alice.username fresh).0 ≡ false
unfolding user_exists get_user_password_hash c_str prepared step_rows finalize pure ◌>>=◌ rows_of
    hash_in
alice_new = refl

alice_added : (add_user engine alice.username (password_hash alice.password) fresh).0 ≡ true
unfolding add_user c_str password_hash prepared step_done finalize pure ◌>>=◌ run_step insert_user
    hash_in
alice_added = refl

-- The server after the answer to the registration.
abbrev registered : Server (Connection Memory)
registered = record one_session {
  db = (add_user engine alice.username (password_hash alice.password) fresh).1;
  results =
      send_raw_command 5 (
        build_payload login_header.message_id login_header.session_id (register_response_data true))
      ∷ [];
}

alice_found :
    HasRow engine alice.username
      (add_user engine alice.username (password_hash alice.password) fresh).1.store
unfolding add_user prepared step_done finalize ◌>>=◌ pure run_step rows_of insert_user hash_in c_str
    password_hash same_text
alice_found = (refl, λ e. cc)

register-log_in_example :
    (handle_register_request (sqlite_repositories engine) login_header alice 1 one_session
      ≡ some (tt, registered))
    × (handle_auth_request (sqlite_repositories engine) login_header alice 1 registered
        ≡ some (
          tt,
          answered
              (sqlite_repositories engine)
              login_header
              alice
              1
              (new_session 5)
              true
              registered,
        ))
unfolding lookup new_session
register-log_in_example =
    register-log_in engine book engine-IsUserTable login_header login_header alice 1 one_session
      (new_session 5) refl alice_valid alice_new alice_added alice_found
