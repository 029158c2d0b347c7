-- ===== src/Tests/Ending.antt =====
-- Runs of the session manager to the end of the server.
use cvcn.Common.{ℕ, ◌<◌, ◌≡◌, refl, true, false, [], ◌∷◌, some}
use cvcn.Common.Dict.{lookup, insert}
use cvcn.Session.{ClientSession, close_session, closed_by_peer, new_session, handle_read}
use cvcn.Manager.{
  Manager, empty_manager, contains, without, flights, on_read, close_or_defer, defer, submit_all,
  readable, connected, step,
}
use cvcn.Manager.Safety.Events.{Reach, start, next}
use cvcn.Manager.Draining.Events.{Reach-waits, Reach-deletes}
use cvcn.Manager.{Job}
use cvcn.Manager.Pooling.{IsSeen, pool_step-IsSeen}
use cvcn.Pool.{Pool, finished, pool_step, finish_task, remove_at}
use cvcn.Tests.Net.{
  login_job, Users, repositories, results, one_connection, one_job, connects, reached,
}

connected_once : Reach repositories results (empty_manager []) one_connection
unfolding empty_manager lookup
connected_once = next start (connected 5) refl connects

Reach-deletes_example : (new_session 5).closed ≡ false × (flights 5 one_connection.in_flight ≡ 0)
unfolding lookup new_session empty_manager
Reach-deletes_example =
    Reach-deletes repositories results [] one_connection connected_once refl refl 1 (new_session 5)
      refl

-- The client of the login hangs up before a worker has run it.
abbrev gone : ClientSession
gone = record (new_session 5) { closed = true }

abbrev hanging : Manager Users
hanging = record one_job {
  server = record one_job.server { heap = (1, gone) ∷ [] };
  pending_delete = 5 ∷ [];
}

hangs_up : step repositories results (readable 5 closed_by_peer) one_job ≡ some hanging
unfolding step empty_manager on_read lookup insert handle_read close_or_defer defer without
    close_session submit_all new_session
hangs_up = refl

Reach-waits_example :
    (lookup 5 hanging.sessions ≡ some 1)
    × (gone.closed ≡ true
        → (contains 5 hanging.pending_delete ≡ true) × (0 < flights 5 hanging.in_flight))
unfolding lookup new_session
Reach-waits_example =
    Reach-waits repositories results [] hanging
      (next reached (readable 5 closed_by_peer) tt hangs_up) 1 gone refl

-- One task runs and one waits; the one that runs ends.
abbrev busy_pool : Pool
busy_pool = record { tasks = 2 ∷ []; in_flight = 1; stopping = false; alive = 1; running = 1 ∷ [] }

abbrev ended_pool : Pool
ended_pool = record busy_pool { in_flight = 0; running = [] }

abbrev numbered_job : ℕ → Job
numbered_job k = record login_job { session = k }

pool_step-IsSeen_example : IsSeen numbered_job (finished 0) busy_pool ended_pool one_job
unfolding pool_step finish_task remove_at
pool_step-IsSeen_example =
    pool_step-IsSeen numbered_job (finished 0) busy_pool ended_pool one_job refl
