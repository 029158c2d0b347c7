-- ===== src/Tests/Net.antt =====
-- Runs of the session manager and of the dispatcher.
use cvcn.Common.{ℕ, ◌≡◌, ◌≢◌, refl, arith, true, false, List, [], ◌∷◌, none, some}
use cvcn.Common.Dict.{lookup, insert}
use cvcn.Wire.Bytes.{htons_bytes, htonl_bytes, Bytes, append_bytes, write_uint16_be, write_string}
use cvcn.Wire.Packet
use cvcn.Wire.Packet.{PacketHeaderRaw, Credentials}
use cvcn.Wire.Builder.{build_payload, build_packet, body_of, type_of, write_credentials}
use cvcn.Wire.Parser.{parse_header}
use cvcn.Framing.Server.{append_data, extract_body, extract_packet, extract_loop, extract_all}
use cvcn.Sender.{SendResult, sent, init}
use cvcn.Session.{ClientSession, chunk, would_block, closed_by_peer, new_session, handle_read}
use cvcn.Server.{Server, Repositories}
use cvcn.Server.Dispatcher.{dispatch}
use cvcn.Server.Registry.{find_by_user_id}
use cvcn.Server.Services.{deliver}
use cvcn.Server.Safety.{Evolves}
use cvcn.Server.Safety.Login.{IsSound, IsOwned, dispatch-IsSound}
use cvcn.Manager.{
  Job, Manager, empty_manager, contains, on_new_connection, submit, submit_all, on_read,
  run_command, connected, readable, broken, worked, pick, step,
}
use cvcn.Server.{task_done_command}
use cvcn.Manager.Safety.Events.{Reach, start, next}
use cvcn.Manager.Poller.{poll}
use cvcn.Manager.Hazards.{poll-faults, relogin-dangles, reused_descriptor-closes}

-- The users' names, with their stored hashes.
abbrev pub Users : Type 0
Users = List (Bytes × Bytes)

-- Everybody is user 7 with the stored hash of the password "p".
abbrev pub repositories : Repositories Users
repositories = record {
  add_user = λ name hash db. (true, (name, hash) ∷ db);
  delete_user = λ name hash db. (false, db);
  get_user_password_hash = λ name db. b'h' ∷ b'a' ∷ b's' ∷ b'h' ∷ b'_' ∷ b'p' ∷ [];
  user_exists = λ name db. false;
  get_user_id = λ name db. some 7;
  find_users = λ query user_id db. [];
  find_or_create_direct_chat = λ u v db. (some 1, db);
  get_user_chats = λ user_id db. [];
  get_chat_member_ids = λ chat_id db. 7 ∷ 8 ∷ [];
  save_message = λ chat_id sender text db. (true, db);
}

abbrev pub results : ℕ → ℕ → SendResult
results fd k = sent 4096

abbrev pub alice : Credentials
alice = record { username = b'a' ∷ []; password = b'p' ∷ [] }

-- The bytes of a login, as a client sends them.
abbrev pub login_body : Bytes
login_body = 0 ∷ 1 ∷ b'a' ∷ 0 ∷ 1 ∷ b'p' ∷ []

abbrev pub login_header : PacketHeaderRaw
login_header = record { type = 5; message_id = 3; session_id = 0; message_len = 6 }

abbrev pub login_bytes : Bytes
login_bytes = 0 ∷ 5 ∷ 0 ∷ 0 ∷ 0 ∷ 3 ∷ 0 ∷ 0 ∷ 0 ∷ 0 ∷ 0 ∷ 6 ∷ login_body

login_bytes_built : build_payload 3 0 (Packet.auth_request_data alice) ≡ login_bytes
unfolding build_payload build_packet body_of type_of write_credentials write_string write_uint16_be
    append_bytes htons_bytes htonl_bytes
login_bytes_built = refl

abbrev pub login_job : Job
login_job = record { session = 1; fd = 5; header = login_header; body = login_body }

abbrev pub one_connection : Manager Users
one_connection = record (empty_manager []) {
  server = record { db = []; registry = []; heap = (1, new_session 5) ∷ []; results = [] };
  sessions = (5, 1) ∷ [];
  in_flight = (5, 0) ∷ [];
  next_address = 2;
}

-- The client on descriptor 5 has sent a login that no worker has run yet.
abbrev pub one_job : Manager Users
one_job = record one_connection { in_flight = (5, 1) ∷ []; jobs = login_job ∷ [] }

pub connects : step repositories results (connected 5) (empty_manager []) ≡ some one_connection
unfolding step on_new_connection empty_manager insert
connects = refl

pub sends :
    step repositories results (readable 5 (chunk login_bytes would_block)) one_connection
    ≡ some one_job
unfolding step on_read lookup insert new_session init handle_read append_data extract_all
    extract_loop extract_packet extract_body parse_header submit_all submit empty_manager
sends = refl

pub reached : Reach repositories results (empty_manager []) one_job
unfolding empty_manager lookup
reached =
    next (next start (connected 5) refl connects) (readable 5 (chunk login_bytes would_block)) tt
      sends

poll-faults_example :
    (m : Manager Users) × (poll repositories results 5
        (record { has_error = false; input = some closed_by_peer; output = true })
        one_job
      ≡ some m)
    × (step repositories results (worked 0) m ≡ none)
unfolding lookup pick
poll-faults_example =
    poll-faults repositories results 5 0 one_job login_job [] (new_session 5) refl refl
      (omega arith) refl

-- A session that logged in as user 7 and then as user 8.
abbrev twice : ClientSession
twice = record (new_session 5) { user_id = some 8; username = b'b' ∷ [] }

abbrev twice_logged_in : Manager Users
twice_logged_in = record one_connection {
  server = record {
    db = [];
    registry = (7, 1) ∷ (8, 1) ∷ [];
    heap = (1, twice) ∷ [];
    results = [];
  };
}

relogin-dangles_example :
    (m : Manager Users) × (step repositories results (broken 5) twice_logged_in ≡ some m)
    × (find_by_user_id 7 m.server.registry ≡ some 1)
    × (lookup 1 m.server.heap ≡ none)
    × (deliver repositories 9 login_bytes 7 m.server ≡ none)
unfolding lookup
relogin-dangles_example =
    relogin-dangles repositories results 5 1 7 9 login_bytes twice_logged_in twice refl refl refl
      refl (λ e. cc) (omega arith)

-- The client on descriptor 5 has hung up while its login runs.
abbrev hung_up : Manager Users
hung_up = record one_job {
  server = record {
    db = [];
    registry = [];
    heap = (1, record (new_session 5) { closed = true }) ∷ [];
    results = [];
  };
  pending_delete = 5 ∷ [];
}

reused_descriptor-closes_example :
    (m1 : Manager Users) × (m2 : Manager Users) × (step repositories results (connected 5) hung_up
      ≡ some m1)
    × (run_command results (task_done_command 5) m1 ≡ some m2)
    × (lookup 5 m2.sessions ≡ none)
    × (lookup 2 m2.server.heap ≡ none)
    × (lookup 1 m2.server.heap ≡ some (record (new_session 5) { closed = true }))
    × ((k : ℕ) → lookup k m2.sessions ≢ some 1)
unfolding lookup contains
reused_descriptor-closes_example =
    reused_descriptor-closes repositories results 5 1 hung_up
      (record (new_session 5) { closed = true }) refl refl (omega arith) refl
      (λ k other e. ground arith)

-- Session 1 is registered for user 7.
abbrev pub logged_in : Server Users
logged_in = record {
  db = [];
  registry = (7, 1) ∷ [];
  heap = (1, record (new_session 5) { user_id = some 7 }) ∷ (2, new_session 6) ∷ [];
  results = [];
}

logged_in-IsOwned : IsOwned logged_in.registry logged_in.heap
unfolding lookup
logged_in-IsOwned u a e = (record (new_session 5) { user_id = some 7 }, ground arith, ground arith)

pub logged_in-IsSound : IsSound 2 logged_in.registry logged_in.heap
unfolding lookup
logged_in-IsSound =
    ((new_session 6, refl), λ u a e. let (s, p, q) = logged_in-IsOwned u a e in (s, p))

dispatch-IsSound_example :
    (st : Server Users) × (dispatch repositories login_header login_body 2 logged_in
      ≡ some (tt, st))
    × IsSound 2 st.registry st.heap
    × Evolves logged_in st
dispatch-IsSound_example =
    dispatch-IsSound repositories 2 login_header login_body logged_in logged_in-IsSound
