-- ===== src/Program.antt =====
-- server/app/main.cpp from its start to its return, with the head of `EventPoller::startEventLoop`.
-- Nothing throws, so the handlers of exceptions have no model.
use cvcn.Common.{
  ℕ, ◌≤◌, ◌≡◌, refl, ap, ◌⊎◌, inl, inr, Bool, true, false, List, [], Option, none, some,
  if◌then◌else◌, Bool-cases, length,
}
use cvcn.Common.Dict.{lookup}
use cvcn.Wire.Bytes.{Bytes}
use cvcn.Storage.{ℤ, pos, is_minus_one}
use cvcn.Startup.{
  Round, Prompt, returns, exits, asks_again, prompt_for_port, ListeningSocket, close_socket,
  start_listening,
}
use cvcn.Startup.Socket.{idle, close_socket-idle, start_listening-IsStarted}
use cvcn.Sender.{SendResult}
use cvcn.Server.{Repositories}
use cvcn.Manager.{Manager, empty_manager}
use cvcn.Manager.Invariant.{Inv}
use cvcn.Manager.Safety.Events.{empty-Inv}
use cvcn.Manager.Loop.{LoopRound, loop_events, loop_ends, run_loop, AllAllowed, run_loop-Inv}
use cvcn.Manager.Shutdown.{Ending, waits, over, shut_down, AllWorks}
use cvcn.Manager.Shutdown.Termination.{AllBusy, none_left-over, shut_down-over}

-- `port_` of ServerConfig.
abbrev pub default_port : ℤ
default_port = pos 55550

-- What the system answers in a run: the rounds of the dialogue, `socket`, `bind` and `listen`, the two
-- calls of fcntl, the rounds of the event loop, and what the workers end while main waits for them.
pub record Environment : Type 0 where
  pub port_rounds : List Round
  pub socket : Option ℕ
  pub binds : Bool
  pub listens : Bool
  pub is_non_blocking : Bool
  pub loop_rounds : List LoopRound
  pub shutdown_rounds : List (List ℕ)

-- How far main comes: it still asks for a port, it exits before there is a server, the event loop
-- runs, it waits for the workers, or it returns 0, with the state that the destructors leave.
pub data Outcome (Db : Type 0) : Type 0 where
  asking : Outcome Db
  exited : ℕ → Outcome Db
  serving : Manager Db → ListeningSocket → Outcome Db
  draining : Manager Db → ListeningSocket → Outcome Db
  returned : Manager Db → ListeningSocket → Outcome Db

unfoldable pub ending_outcome : {Db : Type 0} → ListeningSocket → Ending Db → Outcome Db
ending_outcome l (waits m) = draining m l
ending_outcome l (over m) = returned m (close_socket l)

module _ {Db : Type 0} (repo : Repositories Db) (result : ℕ → ℕ → SendResult) where
  -- The manager behind the rounds, and whether `startEventLoop` has returned. fcntl fails on the
  -- descriptor -1, and then there is no loop.
  unfoldable pub start_event_loop :
      Option ℕ → Bool → List LoopRound → Manager Db → Option (Manager Db × Bool)
  start_event_loop none is_non_blocking rounds m = some (m, true)
  start_event_loop (some fd) is_non_blocking rounds m =
      if is_non_blocking
      then elim (run_loop repo result rounds m) [
        | none ↦ none
        | some m' ↦ some (m', loop_ends rounds)
      ]
      else some (m, true)

  unfoldable pub after_loop :
      List (List ℕ) → ListeningSocket → Bool → Manager Db → Option (Outcome Db)
  after_loop rounds l false m = some (serving m l)
  after_loop rounds l true m = elim (shut_down repo result rounds m) [
    | none ↦ none
    | some ending ↦ some (ending_outcome l ending)
  ]

  unfoldable pub serve : Environment → Db → Option (Outcome Db)
  serve env db =
      let l = start_listening env.socket env.binds env.listens idle in
      elim (start_event_loop l.server_file_descriptor env.is_non_blocking env.loop_rounds
        (empty_manager db)) [
          | none ↦ none
          | some (m, ended) ↦ after_loop env.shutdown_rounds l ended m
        ]

  unfoldable pub run_main : (Bytes → Option ℤ) → Environment → Db → Option (Outcome Db)
  run_main stoi env db = elim (prompt_for_port stoi default_port env.port_rounds) [
    | asks_again ↦ some asking
    | exits ↦ some (exited 1)
    | returns port ↦ if is_minus_one port then some (exited 0) else serve env db
  ]

  -- What is asked of a run: each event of the loop is allowed, and if the loop ends there are as many
  -- rounds behind it as jobs, in each of which the first worker ends an allowed job while jobs are
  -- left.
  pub record IsOrderly (env : Environment) (db : Db) : Type 0 where
    pub allowed : AllAllowed repo result (loop_events env.loop_rounds) (empty_manager db)
    pub work_is_allowed :
        (m : Manager Db)
        → run_loop repo result env.loop_rounds (empty_manager db) ≡ some m
        → loop_ends env.loop_rounds ≡ true
        → AllWorks repo result env.shutdown_rounds m
    pub work_is_enough :
        (m : Manager Db)
        → run_loop repo result env.loop_rounds (empty_manager db) ≡ some m
        → loop_ends env.loop_rounds ≡ true
        → (length m.jobs ≤ length env.shutdown_rounds) × AllBusy repo result env.shutdown_rounds m

  -- The event loop does not start, or it ends in the rounds.
  abbrev pub is_past_loop : Option ℕ → Environment → Bool
  is_past_loop none env = true
  is_past_loop (some fd) env = if env.is_non_blocking then loop_ends env.loop_rounds else true

  -- The return of a server that leaves no session object and no descriptor.
  abbrev pub IsClean : Option (Outcome Db) → Type 0
  IsClean r =
      (m : Manager Db) × (r ≡ some (returned m idle)) × ((a : ℕ) → lookup a m.server.heap ≡ none)

  -- The event loop runs, with the invariant of the session manager.
  abbrev pub IsServing : ListeningSocket → Option (Outcome Db) → Type 0
  IsServing l r = (m : Manager Db) × (r ≡ some (serving m l)) × Inv [] m

  -- What main does behind the dialogue.
  abbrev pub Serves : Environment → Option (Outcome Db) → Type 0
  Serves env r =
      let l = start_listening env.socket env.binds env.listens idle in
      let past = is_past_loop l.server_file_descriptor env in
      ((past ≡ true) × IsClean r) ⊎ ((past ≡ false) × IsServing l r)

  -- What main does for each result of the dialogue.
  abbrev pub Ends : Environment → Prompt → Option (Outcome Db) → Type 0
  Ends env asks_again r = r ≡ some asking
  Ends env exits r = r ≡ some (exited 1)
  Ends env (returns port) r =
      ((is_minus_one port ≡ true) × (r ≡ some (exited 0)))
      ⊎ ((is_minus_one port ≡ false) × Serves env r)

  -- The event loop, if it starts, and what follows it if it has ended.
  AfterLoop : Environment → Bool → Option (Manager Db × Bool) → Type 0
  AfterLoop env past r =
      (m : Manager Db) × (r ≡ some (m, past))
      × Inv [] m
      × (past ≡ true
          → (n : Manager Db) × (shut_down repo result env.shutdown_rounds m ≡ some (over n))
            × ((a : ℕ) → lookup a n.server.heap ≡ none))

  without_loop : (env : Environment) (db : Db) → AfterLoop env true (some (empty_manager db, true))
  unfolding AfterLoop
  without_loop env db = (
    empty_manager db,
    refl,
    empty-Inv db,
    λ past.
        none_left-over repo result env.shutdown_rounds (empty_manager db)
          (unfold empty_manager in refl) (empty-Inv db),
  )

  with_loop :
      (env : Environment) (db : Db)
      → IsOrderly env db
      → AfterLoop env
          (loop_ends env.loop_rounds)
          (elim (run_loop repo result env.loop_rounds (empty_manager db)) [
            | none ↦ none
            | some m ↦ some (m, loop_ends env.loop_rounds)
          ])
  unfolding AfterLoop
  with_loop env db orderly =
      let (m, p, v) =
        run_loop-Inv repo result env.loop_rounds (empty_manager db) (empty-Inv db)
          orderly.allowed in
      (
        m,
        rw p refl,
        v,
        λ past.
            let (enough, busy) = orderly.work_is_enough m p past in
            shut_down-over repo result env.shutdown_rounds m enough v
              (orderly.work_is_allowed m p past) busy,
      )

  start_event_loop-AfterLoop :
      (env : Environment) (db : Db)
      → IsOrderly env db
      → (fd : Option ℕ)
      → AfterLoop env
          (is_past_loop fd env)
          (start_event_loop fd env.is_non_blocking env.loop_rounds (empty_manager db))
  unfolding start_event_loop AfterLoop
  start_event_loop-AfterLoop env db orderly none = without_loop env db
  start_event_loop-AfterLoop env db orderly (some fd) = elim (Bool-cases env.is_non_blocking) [
    | inl starts ↦ rw starts (with_loop env db orderly)
    | inr fails ↦ rw fails (without_loop env db)
  ]

  serve-Serves : (env : Environment) (db : Db) → IsOrderly env db → Serves env (serve env db)
  unfolding serve after_loop AfterLoop ending_outcome
  serve-Serves env db orderly =
      let l : ListeningSocket = start_listening env.socket env.binds env.listens idle in
      let (tidy, held) = start_listening-IsStarted env.socket env.binds env.listens idle refl in
      let (m, p, v, ending) = start_event_loop-AfterLoop env db orderly l.server_file_descriptor in
      elim (Bool-cases (is_past_loop l.server_file_descriptor env)) [
        | inr running ↦ inr (running, (m, rw (p, serve) (rw running refl), v))
        | inl past ↦
            let (n, q, empty) = ending past in
            let closed : close_socket l ≡ idle =
              close_socket-idle l.server_file_descriptor l.open_descriptors tidy in
            inl (
              past,
              (
                n,
                rw (p, serve) (rw past (rw (q, after_loop) (ap (λ k. some (returned n k)) closed))),
                empty,
              ),
            )
      ]

  -- What main does on every path of an orderly run, in which the workers end whole jobs while main
  -- sleeps behind the loop. When the dialogue returns a port, main serves in
  -- the event loop, with the invariant of the session manager, until the loop ends; if it has ended,
  -- or could not start since there is no listening socket that does not block, main returns and
  -- leaves no session object and no descriptor of the listening socket. On a shutdown in the dialogue
  -- it exits with 0, on a line that cannot be read with 1, and while the dialogue has no result it
  -- still asks.
  pub run_main-Ends :
      (stoi : Bytes → Option ℤ) (env : Environment) (db : Db)
      → IsOrderly env db
      → Ends env (prompt_for_port stoi default_port env.port_rounds) (run_main stoi env db)
  unfolding run_main
  run_main-Ends stoi env db orderly = by_result (prompt_for_port stoi default_port env.port_rounds)
    where
      by_result :
          (p : Prompt)
          → Ends env p (elim p [
            | asks_again ↦ some asking
            | exits ↦ some (exited 1)
            | returns port ↦ if is_minus_one port then some (exited 0) else serve env db
          ])
      by_result asks_again = refl
      by_result exits = refl
      by_result (returns port) = elim (Bool-cases (is_minus_one port)) [
        | inl requested ↦ inl (requested, rw requested refl)
        | inr chosen ↦ inr (chosen, rw chosen (serve-Serves env db orderly))
      ]
