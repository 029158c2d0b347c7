-- ===== src/Manager/Poller.antt =====
-- The body of the loop of `EventPoller::startEventLoop` (server/net/EventPoller.cpp) for one ready
-- client descriptor.
use cvcn.Common.{ℕ, Bool, List, [], ◌∷◌, ◌++◌, Option, none, some, if◌then◌else◌}
use cvcn.Sender.{SendResult}
use cvcn.Session.{Recv}
use cvcn.Server.{Repositories}
use cvcn.Manager.{Manager, Event, readable, writable, broken, step}

-- The mask that epoll reports: EPOLLERR or EPOLLHUP; EPOLLIN, with what `recv` will give; EPOLLOUT.
pub record Ready : Type 0 where
  pub has_error : Bool
  pub input : Option Recv
  pub output : Bool

-- The callbacks of one round, in their order: an error ends the round.
unfoldable pub callbacks : ℕ → Ready → List Event
callbacks fd ready =
    if ready.has_error
    then broken fd ∷ []
    else (elim ready.input [ none ↦ [] | some recv ↦ readable fd recv ∷ [] ]
        ++ (if ready.output then writable fd ∷ [] else []))

module _ {Db : Type 0} (repo : Repositories Db) (result : ℕ → ℕ → SendResult) where
  unfoldable pub step_all : List Event → Manager Db → Option (Manager Db)
  step_all [] m = some m
  step_all (e ∷ es) m = elim (step repo result e m) [ none ↦ none | some m' ↦ step_all es m' ]

  unfoldable pub poll : ℕ → Ready → Manager Db → Option (Manager Db)
  poll fd ready m = step_all (callbacks fd ready) m
