-- ===== src/ServerMain.antt =====
-- cpp/server/main.cpp: the start of the server, and its shutdown on a signal by a thread of its own. A
-- transport is its position in the list of transports, and whether it starts. Times are seconds.
pub mod Shutdown
pub mod Exit
pub mod Launch
use ds_service.Base.{
  ℕ, zero, suc, ◌+◌, Bool, true, false, ◌&&◌, not, Option, none, some, List, [], ◌∷◌, ltb, eqb,
  length, if◌then◌else◌,
}

abbrev pub shutdown_grace_s : ℕ
shutdown_grace_s = 5

-- The server exits with a code, or serves on all its transports; with the transports that were started.
pub data Startup : Type 0 where
  exits : ℕ → List ℕ → Startup
  serves : List ℕ → Startup

abbrev pub also_started : ℕ → Startup → Startup
also_started index (exits code started) = exits code (index ∷ started)
also_started index (serves started) = serves (index ∷ started)

-- the loop that starts the transports, from an index on
unfoldable pub start_transports : List Bool → ℕ → Startup
start_transports [] index = serves []
start_transports (starts ∷ transports) index =
    let rest = start_transports transports (index + 1) in
    if not starts then exits 1 [] else also_started index rest

-- `main`, up to the start of the shutdown thread: whether the signals can be blocked and the arguments
-- parsed
unfoldable pub startup : Bool → Bool → List Bool → Startup
unfolding start_transports
startup blocks parses transports =
    if not blocks
    then exits 1 []
    else if not parses
    then exits 1 []
    else start_transports transports 0

-- Where the shutdown thread is: in sigwait, in its loop with the deadline and the number of transports
-- that it has shut down, or at its end.
pub data ShutdownThread : Type 0 where
  awaits_signal : ShutdownThread
  shuts_down : ℕ → ℕ → ShutdownThread
  ended : ShutdownThread

-- Where main is: before its loop has waited for a transport, or after the return.
pub data MainThread : Type 0 where
  waits : ℕ → MainThread
  returned : ℕ → MainThread

-- A server with `transports` transports. `shut_by` has the deadline of each shutdown, the latest first.
pub record Server : Type 0 where
  pub transports : ℕ
  pub signaled : Bool
  pub shutdown : Bool
  pub shut_by : List ℕ
  pub shutdown_thread : ShutdownThread
  pub main_thread : MainThread

abbrev pub serving : ℕ → Server
serving transports = record {
  transports = transports;
  signaled = false;
  shutdown = false;
  shut_by = [];
  shutdown_thread = awaits_signal;
  main_thread = waits 0;
}

pub data Event : Type 0 where
  signal_arrives : Event
  sigwait_returns : ℕ → Event
  sigwait_fails : ℕ → Event
  shuts_next : Event
  wait_returns : Event
  joins : Event

-- `await_shutdown_signal`, once sigwait is over at a time
abbrev pub starts_shutdown : ℕ → Server → Server
starts_shutdown now s = record s {
  shutdown = true;
  shutdown_thread = shuts_down (now + shutdown_grace_s) 0;
}

-- one round of its loop, or its end
unfoldable pub shut_next : Server → Option Server
shut_next s = elim s.shutdown_thread [
  | awaits_signal ↦ none
  | ended ↦ none
  | shuts_down deadline count ↦
      if ltb count s.transports
      then some (record s {
        shut_by = deadline ∷ s.shut_by;
        shutdown_thread = shuts_down deadline (suc count);
      })
      else some (record s { shutdown_thread = ended })
]

-- `transport->wait()` returns once the transport has been shut down.
unfoldable pub wait_next : Server → Option Server
wait_next s = elim s.main_thread [
  | returned code ↦ none
  | waits count ↦
      if ltb count s.transports && ltb count (length s.shut_by)
      then some (record s { main_thread = waits (suc count) })
      else none
]

-- `shutdown_thread.join()` and the return of main
unfoldable pub join : Server → Option Server
join s = elim s.main_thread [
  | returned code ↦ none
  | waits count ↦ elim s.shutdown_thread [
    | ended ↦ if eqb count s.transports then some (record s { main_thread = returned 0 }) else none
    | other ↦ none
  ]
]

unfoldable pub happen : Event → Server → Option Server
unfolding shut_next wait_next join
happen signal_arrives s = some (record s { signaled = true })
happen (sigwait_returns now) s = elim s.shutdown_thread [
  | awaits_signal ↦ if s.signaled then some (starts_shutdown now s) else none
  | other ↦ none
]
happen (sigwait_fails now) s = elim s.shutdown_thread [
  | awaits_signal ↦ some (starts_shutdown now s)
  | other ↦ none
]
happen shuts_next s = shut_next s
happen wait_returns s = wait_next s
happen joins s = join s
