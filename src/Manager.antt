-- ===== src/Manager.antt =====
-- server/net/SessionManager.cpp with what it drives: the sessions, the thread pool, the result queue,
-- and the main loop's commands of server/app/main.cpp.
pub mod Poller
pub mod Loop
pub mod Invariant
pub mod Safety
pub mod Racing
pub mod Hazards
pub mod Draining
pub mod Shutdown
pub mod Pooling
use cvcn.Common.{
  ℕ, zero, suc, ◌+◌, ◌-◌, Bool, true, false, List, [], ◌∷◌, ◌++◌, Option, none, some, ltb, ◌==◌,
  if◌then◌else◌,
}
use cvcn.Common.Dict.{Dict, lookup, insert, erase}
use cvcn.Wire.Bytes.{Bytes}
use cvcn.Wire.Packet.{PacketHeaderRaw}
use cvcn.Framing.Server.{Packet}
use cvcn.Sender.{SendResult}
use cvcn.Session.{
  ClientSession, Recv, new_session, close_session, handle_read, handle_write, send_raw_direct,
}
use cvcn.Server.{
  Server, Repositories, SessionCommand, send_raw_command, close_command, task_done_command,
}
use cvcn.Server.Registry.{unregister_user}
use cvcn.Server.Dispatcher.{dispatch}

-- A closure given to `ThreadPool::submit`.
pub record Job : Type 0 where
  pub session : ℕ
  pub fd : ℕ
  pub header : PacketHeaderRaw
  pub body : Bytes

-- `jobs` are the submitted closures that have not reported `TaskDone` yet, waiting or running.
-- `next_address` is where the next session object is put.
pub record Manager (Db : Type 0) : Type 0 where
  pub server : Server Db
  pub sessions : Dict ℕ
  pub in_flight : Dict ℕ
  pub pending_delete : List ℕ
  pub jobs : List Job
  pub stopping : Bool
  pub next_address : ℕ

-- A server with no connection.
unfoldable pub empty_manager : {Db : Type 0} → Db → Manager Db
empty_manager db = record {
  server = record { db = db; registry = []; heap = []; results = [] };
  sessions = [];
  in_flight = [];
  pending_delete = [];
  jobs = [];
  stopping = false;
  next_address = 1;
}

-- `inFlight_[fd]`, where a missing entry counts as 0.
abbrev pub flights : ℕ → Dict ℕ → ℕ
flights fd in_flight = elim (lookup fd in_flight) [ none ↦ 0 | some n ↦ n ]

-- `pendingDelete_.count`, `insert` and `erase`
unfoldable pub contains : ℕ → List ℕ → Bool
contains fd [] = false
contains fd (k ∷ ks) = if k == fd then true else contains fd ks

unfoldable pub without : ℕ → List ℕ → List ℕ
without fd [] = []
without fd (k ∷ ks) = let rest = without fd ks in if k == fd then rest else k ∷ rest

-- `if (sessionRegistry_ && userID != -1) unregisterUser(userID, session)`
unfoldable pub unregister : Option ℕ → ℕ → Dict ℕ → Dict ℕ
unregister none session registry = registry
unregister (some user_id) session registry = unregister_user user_id session registry

module _ {Db : Type 0} where
  abbrev pub put_object : ℕ → ClientSession → Manager Db → Manager Db
  put_object a s m = record m { server = record m.server { heap = insert a s m.server.heap } }

  unfoldable pub on_new_connection : ℕ → Manager Db → Manager Db
  on_new_connection fd m =
      let a = m.next_address in
      record (put_object a (new_session fd) m) {
        sessions = insert fd a m.sessions;
        in_flight = insert fd 0 m.in_flight;
        next_address = suc a;
      }

  -- `ThreadPool::submit`, which drops the closure once the pool is stopping.
  unfoldable pub submit : Job → Manager Db → Manager Db
  submit job m = if m.stopping then m else record m { jobs = m.jobs ++ job ∷ [] }

  -- `for (Task& task : tasks)`
  unfoldable pub submit_all : ℕ → ℕ → List Packet → Manager Db → Manager Db
  submit_all fd session [] m = m
  submit_all fd session ((header, body) ∷ tasks) m = submit_all fd session tasks (
      submit (record { session = session; fd = fd; header = header; body = body })
        (record m { in_flight = insert fd (flights fd m.in_flight + 1) m.in_flight }))

  -- The session object at `a` is deleted. What `closeSession` does to it is not seen any more.
  unfoldable pub delete_session : ℕ → ℕ → ClientSession → Manager Db → Manager Db
  delete_session fd a s m = record m {
    server = record m.server {
      registry = unregister s.user_id a m.server.registry;
      heap = erase a m.server.heap;
    };
    sessions = erase fd m.sessions;
    in_flight = erase fd m.in_flight;
  }

  -- `sessions_.find(fd)` and a use of the object: nothing happens without an entry, and `none` is
  -- the use of a deleted object.
  abbrev pub with_session :
      ℕ → Manager Db → (ℕ → ClientSession → Option (Manager Db)) → Option (Manager Db)
  with_session fd m use_it = elim (lookup fd m.sessions) [
    | none ↦ some m
    | some a ↦ elim (lookup a m.server.heap) [ none ↦ none | some s ↦ use_it a s ]
  ]

  unfoldable pub close_client : ℕ → Manager Db → Option (Manager Db)
  close_client fd m = with_session fd m (λ a s. some (delete_session fd a s m))

  -- The deletion waits for the tasks; the socket is closed now.
  unfoldable pub defer : ℕ → Manager Db → Option (Manager Db)
  defer fd m =
      let m' = record m { pending_delete = fd ∷ without fd m.pending_delete } in
      with_session fd m' (λ a s. some (put_object a (close_session s) m'))

  unfoldable pub close_or_defer : ℕ → Manager Db → Option (Manager Db)
  close_or_defer fd m = if ltb 0 (flights fd m.in_flight) then defer fd m else close_client fd m

  unfoldable pub on_read : ℕ → Recv → Manager Db → Option (Manager Db)
  on_read fd recv m = with_session fd m λ a s.
      let (tasks, s') = handle_read recv s in
      let m' = submit_all fd a tasks (put_object a s' m) in
      if s'.closed then close_or_defer fd m' else some m'

  -- A session that is closed is deleted here at once.
  unfoldable pub on_write : (ℕ → SendResult) → ℕ → Manager Db → Option (Manager Db)
  on_write result fd m = with_session fd m λ a s.
      let m' = put_object a (handle_write result s) m in
      if s.closed then close_client fd m' else some m'

  unfoldable pub on_error : ℕ → Manager Db → Option (Manager Db)
  on_error fd m = close_or_defer fd m

  -- Each session has an entry in `inFlight_`, so `inFlight_[fd]` adds none.
  unfoldable pub request_close_client : ℕ → Manager Db → Option (Manager Db)
  request_close_client fd m = elim (lookup fd m.sessions) [
    | none ↦ some m
    | some a ↦ if ltb 0 (flights fd m.in_flight) then defer fd m else close_client fd m
  ]

  unfoldable pub on_task_done : ℕ → Manager Db → Option (Manager Db)
  on_task_done fd m = elim (lookup fd m.in_flight) [
    | none ↦ some m
    | some n ↦
        let m' = record m { in_flight = insert fd (n - 1) m.in_flight } in
        if ltb 1 n
        then some m'
        else if contains fd m.pending_delete
        then close_client fd (record m' { pending_delete = without fd m.pending_delete })
        else some m'
  ]

  -- `case CommandType::SendRaw`
  unfoldable pub on_send_raw : (ℕ → SendResult) → ℕ → Bytes → Manager Db → Option (Manager Db)
  on_send_raw result fd packet m =
      with_session fd m
        λ a s. some (if s.closed then m else put_object a (send_raw_direct result packet s) m)

  unfoldable pub run_command :
      (ℕ → ℕ → SendResult) → SessionCommand → Manager Db → Option (Manager Db)
  run_command result (send_raw_command fd packet) m = on_send_raw (result fd) fd packet m
  run_command result (close_command fd) m = request_close_client fd m
  run_command result (task_done_command fd) m = on_task_done fd m

module _ {Db : Type 0} (repo : Repositories Db) where
  -- A closure that a worker runs: the dispatch unless the session is closed, then `TaskDone`.
  unfoldable pub run_job : Job → Server Db → Option (Server Db)
  run_job job st = elim (lookup job.session st.heap) [
    | none ↦ none
    | some s ↦
        elim (if s.closed
          then some (tt, st)
          else dispatch repo job.header job.body job.session st) [
            | none ↦ none
            | some (_, st') ↦
                some (record st' { results = st'.results ++ task_done_command job.fd ∷ [] })
          ]
  ]

-- What the main thread, the workers and the network do.
pub data Event : Type 0 where
  connected : ℕ → Event
  readable : ℕ → Recv → Event
  writable broken : ℕ → Event
  worked : ℕ → Event
  drained : Event

-- The k-th job that is submitted, and the others. Workers may finish in any order.
unfoldable pub pick : ℕ → List Job → Option (Job × List Job)
pick k [] = none
pick zero (j ∷ js) = some (j, js)
pick (suc k) (j ∷ js) = elim (pick k js) [ none ↦ none | some (i, rest) ↦ some (i, j ∷ rest) ]

module _ {Db : Type 0} (repo : Repositories Db) where
  -- A worker runs a whole job. Manager/Racing takes its broadcast apart.
  unfoldable pub work : ℕ → Manager Db → Option (Manager Db)
  work k m = elim (pick k m.jobs) [
    | none ↦ some m
    | some (job, rest) ↦ elim (run_job repo job m.server) [
      | none ↦ none
      | some st ↦ some (record m { server = st; jobs = rest })
    ]
  ]

module _ {Db : Type 0} (repo : Repositories Db) (result : ℕ → ℕ → SendResult) where
  -- `for (auto& cmd : commands)`
  unfoldable pub run_commands : List SessionCommand → Manager Db → Option (Manager Db)
  run_commands [] m = some m
  run_commands (c ∷ cs) m = elim (run_command result c m) [
    | none ↦ none
    | some m' ↦ run_commands cs m'
  ]

  -- `resultQueue.drain()` and the loop over the commands.
  unfoldable pub drain : Manager Db → Option (Manager Db)
  drain m = run_commands m.server.results (record m { server = record m.server { results = [] } })

  unfoldable pub step : Event → Manager Db → Option (Manager Db)
  step (connected fd) m = some (on_new_connection fd m)
  step (readable fd recv) m = on_read fd recv m
  step (writable fd) m = on_write (result fd) fd m
  step (broken fd) m = on_error fd m
  step (worked k) m = work repo k m
  step drained m = drain m
