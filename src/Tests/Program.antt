-- ===== src/Tests/Program.antt =====
-- Runs of the whole server, and of the client on a stream.
use cvcn.Common.{◌≤◌, refl, arith, true, false, [], ◌∷◌, some, some_inj, subst, length}
use cvcn.Common.Dict.{lookup}
use cvcn.Manager.{Manager, empty_manager, on_new_connection, step}
use cvcn.Manager.Poller.{step_all}
use cvcn.Manager.Loop.{
  of_server, accepted, interrupted, reported, report_events, accept_events, loop_events, run_loop,
}
use cvcn.Startup.{prompt_for_port}
use cvcn.Program.{Environment, default_port, IsOrderly, Ends, run_main, run_main-Ends}
use cvcn.Tests.Net.{Users, repositories, results}
use cvcn.Tests.Startup.{one_digit, rounds}

-- A server that one client connects to before a shutdown is requested.
abbrev environment : Environment
environment = record {
  port_rounds = rounds;
  socket = some 3;
  binds = true;
  listens = true;
  is_non_blocking = true;
  loop_rounds =
      record { requested = false; waited = reported (of_server false (some (accepted 5)) ∷ []) }
      ∷ record { requested = true; waited = interrupted }
      ∷ [];
  shutdown_rounds = [];
}

is_orderly : IsOrderly repositories results environment []
unfolding loop_events report_events accept_events empty_manager lookup run_loop step_all step
    on_new_connection
is_orderly = record {
  allowed = (refl, λ m' e. tt);
  work_is_allowed = λ m p past. tt;
  work_is_enough =
      λ m p past. (subst (λ (k : Manager Users). length k.jobs ≤ 0) (some_inj p) (omega arith), tt);
}

run_main-Ends_example :
    Ends repositories results environment
      (prompt_for_port one_digit default_port rounds)
      (run_main repositories results one_digit environment [])
run_main-Ends_example = run_main-Ends repositories results one_digit environment [] is_orderly
