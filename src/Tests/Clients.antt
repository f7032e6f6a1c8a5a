-- ===== src/Tests/Clients.antt =====
-- A client with two threads that is closed while one of them is in a call; and calls that reach a server.
use ds_service.Base.{
  Bool, List, ℕ, ◌⊎◌, String, ◌≡◌, refl, true, false, none, some, [], ◌∷◌, ◌==◌, if◌then◌else◌,
}
use ds_service.Client.{
  mutex_try_acquire, map_get, map_set, journal_size, journal_read, journal_append,
}
use ds_service.Client.Wire.{
  over_grpc, journal_size_lem, map_get-map_set, journal_read-journal_append,
}
use ds_service.Connect.{Connects, connect-Connects}
use ds_service.Error.{ok}
use ds_service.Grpc.Client.Calls.{
  GrpcClientTransport, Frame, Event, enters, starts, closes, happen, waiting, new_call,
}
use ds_service.Grpc.Client.Calls.Closing.{Becomes, close-AllAfter}
use ds_service.Grpc.Client.Calls.Expected.{expected}
use ds_service.Grpc.Client.Calls.Raised.{Raised}
use ds_service.Grpc.Client.Calls.Returning.{
  LeavesWith, failure_of, completed, rest_of, run, invoke-Returns,
}
use ds_service.Grpc.Client.Calls.Steps.{Steps, here, next, initial, AllSafe, reachable-AllSafe}
use ds_service.Grpc.Codec.{cancelled_status}
use ds_service.Grpc.Server.{Status}
use ds_service.MutexAcquire.{Round, acquire_loop}
use ds_service.MutexAcquire.Waits.{Stops, over_grpc-Serves, acquire_loop-Stops}
use ds_service.SystemState.{SystemState}
use ds_service.Tests.Library.{library}
use ds_service.Tests.Server.{calendar, first_state}

abbrev Threads : Type 0
Threads = GrpcClientTransport String ℕ

abbrev after : Event String ℕ → Threads → Threads
after event t = elim (happen true event t) [ none ↦ t | some u ↦ u ]

abbrev one_call : Threads
one_call = after (starts 7) (after (enters 7 0) initial)

abbrev closed : Threads
closed = after closes one_call

abbrev late_call : Threads
late_call = after (enters 8 0) closed

to_one_call : Steps true initial one_call
unfolding happen
to_one_call = next (starts 7) (next (enters 7 0) here refl) refl

to_closed : Steps true initial closed
unfolding happen
to_closed = next closes to_one_call refl

to_late_call : Steps true closed late_call
unfolding happen
to_late_call = next (enters 8 0) here refl

reachable-AllSafe_example : AllSafe closed
reachable-AllSafe_example = reachable-AllSafe true closed to_closed

is_closed : closed.closed ≡ true
unfolding happen
is_closed = refl

close-AllAfter_example :
    (late_call.closed ≡ true)
    × ((p : ℕ)
        → Becomes
            (λ failure. Raised to_closed p failure ⊎ Raised to_late_call p failure)
            (closed.frames p)
            (late_call.frames p))
close-AllAfter_example = close-AllAfter true closed late_call to_closed is_closed to_late_call

abbrev frame : Frame String ℕ
frame = record {
  call = record { cancel_requested = true; done = false; status = new_call.status };
  started = true;
  response = 0;
  phase = waiting false;
}

frame_of_7 : closed.frames 7 ≡ some frame
unfolding happen
frame_of_7 = refl

abbrev is_canceled : Status
is_canceled = record { code = cancelled_status; message = "" }

invoke-Returns_example :
    ((failure : String) → failure_of frame.phase ≡ some failure → Raised to_closed 7 failure)
    × LeavesWith 7
        (expected
          (failure_of frame.phase)
          closed.closed
          (completed is_canceled 0 frame).call.status
          (completed is_canceled 0 frame).response)
        (run true (rest_of 7 is_canceled 0 frame) closed)
invoke-Returns_example = invoke-Returns true closed 7 frame is_canceled 0 to_closed frame_of_7 refl

connect-Connects_example : Connects (λ target. target) "grpc://localhost:5051"
connect-Connects_example = connect-Connects (λ target. target) "grpc://localhost:5051"

map_get-map_set_example :
    (map_get
      (over_grpc library calendar)
      "k"
      (map_set (over_grpc library calendar) "k" "v" (false, first_state)).1).0
    ≡ (if "k" == "k"
        then ok "v"
        else (map_get (over_grpc library calendar) "k" (false, first_state)).0)
map_get-map_set_example = map_get-map_set library calendar first_state "k" "v" "k"

no_journal : (journal_size (over_grpc library calendar) "j" (false, first_state)).0 ≡ ok 0
no_journal = journal_size_lem library calendar first_state "j"

journal_read-journal_append_example :
    ((journal_size
        (over_grpc library calendar)
        "j"
        (journal_append (over_grpc library calendar) "j" "v" (false, first_state)).1).0
      ≡ ok 1)
    × ((journal_read
          (over_grpc library calendar)
          "j"
          0
          1
          (journal_append (over_grpc library calendar) "j" "v" (false, first_state)).1).0
        ≡ ok ("v" ∷ []))
journal_read-journal_append_example =
    journal_read-journal_append library calendar first_state "j" "v" 0 no_journal

-- A server whose mutex "k" is held, and a client that waits for it.
abbrev held_state : Bool × SystemState library calendar
held_state = (mutex_try_acquire (over_grpc library calendar) "k" "w" (false, first_state)).1

abbrev two_rounds : List (Round (Bool × SystemState library calendar))
two_rounds =
    record { delay = 2; now = 1; others = λ t. t }
    ∷ record { delay = 2; now = 3; others = λ t. t }
    ∷ []

acquire_loop-Stops_example :
    Stops library
      (over_grpc library calendar)
      (over_grpc-Serves library calendar)
      "k"
      "v"
      (some 3)
      (acquire_loop (over_grpc library calendar) "k" "v" (some 3) held_state two_rounds)
acquire_loop-Stops_example =
    acquire_loop-Stops library (over_grpc library calendar) (over_grpc-Serves library calendar) "k"
      "v" (some 3) held_state two_rounds 3 refl refl
