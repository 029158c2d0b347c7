-- ===== src/Tests/Racing.antt =====
-- Runs in which workers and the main thread take turns inside a broadcast.
use cvcn.Common.{◌≡◌, refl, [], ◌∷◌, none, some}
use cvcn.Common.Dict.{lookup}
use cvcn.Session.{ClientSession, new_session}
use cvcn.Server.{Server, send_raw_command}
use cvcn.Server.Registry.{find_by_user_id}
use cvcn.Manager.{Manager, broken}
use cvcn.Manager.Racing.{Racing, main, finds, pushes, nth, racing_step}
use cvcn.Manager.Racing.Dangling.{next_member, broadcast-dangles}
use cvcn.Tests.Net.{Users, repositories, results, login_bytes, one_connection}

abbrev alone : Manager Users → Racing Users
alone m = record { manager = m; todo = []; broadcasts = [] }

abbrev listener : ClientSession
listener = record (new_session 5) { user_id = some 8 }

-- User 8 is on session 1, and a message of user 7 is on its way to it.
abbrev posting : Racing Users
posting = record {
  manager = record one_connection {
    server = record { db = []; registry = (8, 1) ∷ []; heap = (1, listener) ∷ []; results = [] };
  };
  todo = [];
  broadcasts = next_member 8 [] 7 login_bytes ∷ [];
}

broadcast-dangles_example :
    (r1 : Racing Users) × (r2 : Racing Users) × (racing_step repositories results (finds 0) posting
      ≡ some r1)
    × (racing_step repositories results (main (broken 5)) r1 ≡ some r2)
    × (racing_step repositories results (pushes 0) r2 ≡ none)
unfolding lookup find_by_user_id nth
broadcast-dangles_example =
    broadcast-dangles repositories results 0 5 1 8 7 [] login_bytes posting listener refl refl refl
      refl refl refl refl

abbrev pushed : Server Users
pushed = record {
  db = [];
  registry = (8, 1) ∷ [];
  heap = (1, listener) ∷ [];
  results = send_raw_command 5 login_bytes ∷ [];
}
