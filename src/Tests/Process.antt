-- ===== src/Tests/Process.antt =====
-- A server with one transport from its start to its exit, and a call from Python that Ctrl-C interrupts.
use ds_service.Base.{ℕ, String, ◌≡◌, refl, true, none, some, Option, List, [], ◌∷◌}
use ds_service.Bindings.{Interpreter, called}
use ds_service.Bindings.Pending.{polling, seen_after, first_raised, all_of, called-polling}
use ds_service.Error.{Result, ok}
use ds_service.ServerMain.{
  Server, Event, serving, signal_arrives, sigwait_returns, shuts_next, wait_returns, joins, happen,
  returned,
}
use ds_service.ServerMain.Exit.{CanReturn, signaled-CanReturn}
use ds_service.ServerMain.Shutdown.{Steps, here, next, copies, returned-Graceful}

abbrev after : Event → Server → Server
after event s = elim (happen event s) [ none ↦ s | some t ↦ t ]

abbrev signaled : Server
signaled = after signal_arrives (serving 1)

abbrev exited : Server
exited =
    after joins (
      after wait_returns
        (after shuts_next (after shuts_next (after (sigwait_returns 10) signaled))))

to_signaled : Steps (serving 1) signaled
unfolding happen
to_signaled = next signal_arrives here refl

to_exited : Steps (serving 1) exited
unfolding happen
to_exited =
    next joins
      (next wait_returns
        (next shuts_next (next shuts_next (next (sigwait_returns 10) to_signaled refl) refl) refl)
        refl)
      refl

is_signaled : signaled.signaled ≡ true
unfolding happen
is_signaled = refl

has_returned : exited.main_thread ≡ returned 0
unfolding happen
has_returned = refl

signaled-CanReturn_example : CanReturn signaled
signaled-CanReturn_example = signaled-CanReturn 1 signaled to_signaled is_signaled

returned-Graceful_example :
    ◌≡◌ {A = ℕ} 0 0
    × (exited.shutdown ≡ true)
    × ((deadline : ℕ) × (exited.shut_by ≡ copies 1 deadline))
returned-Graceful_example = returned-Graceful 1 exited 0 to_exited has_returned

abbrev interpreter : Interpreter String ℕ
interpreter = record {
  gil_held = true;
  pending = none;
  on_main_thread = true;
  signals = [];
  client = 0;
}

abbrev ctrl_c : List (List (Option String))
ctrl_c = [] ∷ (none ∷ []) ∷ (some "KeyboardInterrupt" ∷ []) ∷ []

abbrev answer : Result ℕ
answer = ok 1

called-polling_example :
    ((called (polling ctrl_c answer) interpreter).0
      ≡ seen_after (first_raised (all_of ctrl_c)) answer)
    × ((called (polling ctrl_c answer) interpreter).1.pending ≡ none)
    × ((called (polling ctrl_c answer) interpreter).1.gil_held ≡ true)
called-polling_example = called-polling ctrl_c answer interpreter refl refl refl
