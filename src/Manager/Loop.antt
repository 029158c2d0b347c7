-- ===== src/Manager/Loop.antt =====
-- `EventPoller::startEventLoop` (server/net/EventPoller.cpp) with the callbacks of server/app/main.cpp:
-- the reports of epoll_wait become events of the session manager. What the system calls answer is
-- a part of the reports.
use cvcn.Common.{
  ℕ, ◌≡◌, refl, Bool, true, false, List, [], ◌∷◌, ◌++◌, Option, none, some, if◌then◌else◌,
}
use cvcn.Sender.{SendResult}
use cvcn.Server.{Repositories}
use cvcn.Manager.{Manager, Event, connected, drained, worked, step}
use cvcn.Manager.Invariant.{Inv}
use cvcn.Manager.Safety.Events.{Allowed, step-Inv}
use cvcn.Manager.Poller.{Ready, callbacks, step_all}

-- What `accept` and the two calls of fcntl behind it give: a failure, a descriptor that is closed
-- again, or a connection.
pub data Accepted : Type 0 where
  refused given_up : Accepted
  accepted : ℕ → Accepted

-- One entry of `readyEvents`: the listening socket, the eventfd of the result queue, or a client; or
-- the job that a worker ends between two entries.
pub data Report : Type 0 where
  of_server : Bool → Option Accepted → Report
  of_queue : Bool → Report
  of_client : ℕ → Ready → Report
  of_worker : ℕ → Report

-- What one epoll_wait gives: EINTR, another error, or entries.
pub data Waited : Type 0 where
  interrupted failed : Waited
  reported : List Report → Waited

-- The condition of the loop in a round, and its epoll_wait.
pub record LoopRound : Type 0 where
  pub requested : Bool
  pub waited : Waited

unfoldable pub accept_events : Option Accepted → List Event
accept_events none = []
accept_events (some refused) = []
accept_events (some given_up) = []
accept_events (some (accepted fd)) = connected fd ∷ []

-- The events of the entries in order, and whether the loop goes on. An error on the eventfd finds
-- no session, since `sessions_` holds clients only.
unfoldable pub report_events : List Report → List Event × Bool
report_events [] = ([], true)
report_events (of_server error input ∷ rest) =
    let (events, running) = report_events rest in
    if error then ([], false) else (accept_events input ++ events, running)
report_events (of_queue has_input ∷ rest) =
    let (events, running) = report_events rest in
    ((if has_input then drained ∷ [] else []) ++ events, running)
report_events (of_client fd ready ∷ rest) =
    let (events, running) = report_events rest in (callbacks fd ready ++ events, running)
report_events (of_worker k ∷ rest) =
    let (events, running) = report_events rest in (worked k ∷ events, running)

-- The events of the rounds until the loop ends, or of all rounds if it does not end in them.
unfoldable pub loop_events : List LoopRound → List Event
loop_events [] = []
loop_events (round ∷ rest) =
    let later = loop_events rest in
    if round.requested then [] else elim round.waited [
      | interrupted ↦ later
      | failed ↦ []
      | reported reports ↦
          let (events, running) = report_events reports in events ++ (if running then later else [])
    ]

-- Whether the loop ends in the rounds: a shutdown is requested, epoll_wait fails, or the listening
-- socket has an error.
unfoldable pub loop_ends : List LoopRound → Bool
loop_ends [] = false
loop_ends (round ∷ rest) =
    let later = loop_ends rest in
    if round.requested then true else elim round.waited [
      | interrupted ↦ later
      | failed ↦ true
      | reported reports ↦ if (report_events reports).1 then later else true
    ]

module _ {Db : Type 0} (repo : Repositories Db) (result : ℕ → ℕ → SendResult) where
  unfoldable pub run_loop : List LoopRound → Manager Db → Option (Manager Db)
  run_loop rounds m = step_all repo result (loop_events rounds) m

  -- Each event is allowed in the state in which it comes.
  abbrev pub AllAllowed : List Event → Manager Db → Type 0
  AllAllowed [] m = Unit {0}
  AllAllowed (e ∷ es) m =
      Allowed e m × ((m' : Manager Db) → step repo result e m ≡ some m' → AllAllowed es m')

  pub step_all-Inv :
      (es : List Event) (m : Manager Db)
      → Inv [] m
      → AllAllowed es m
      → (m' : Manager Db) × (step_all repo result es m ≡ some m') × Inv [] m'
  unfolding step_all
  step_all-Inv [] m v may = (m, refl, v)
  step_all-Inv (e ∷ es) m v (may, later) =
      let (m1, p, v1) = step-Inv repo result e m v may in
      let (m2, q, v2) = step_all-Inv es m1 v1 (later m1 p) in (m2, rw (p, step_all) q, v2)

  -- The loop of the server, whatever epoll reports, uses no deleted session object and keeps the
  -- invariant of the session manager, as long as each event is allowed in the state it meets.
  pub run_loop-Inv :
      (rounds : List LoopRound) (m : Manager Db)
      → Inv [] m
      → AllAllowed (loop_events rounds) m
      → (m' : Manager Db) × (run_loop rounds m ≡ some m') × Inv [] m'
  unfolding run_loop
  run_loop-Inv rounds m v may = step_all-Inv (loop_events rounds) m v may
