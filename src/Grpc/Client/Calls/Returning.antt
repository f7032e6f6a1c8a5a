-- ===== src/Grpc/Client/Calls/Returning.antt =====
-- That a call returns from `invoke`.
use ds_service.Base.{
  ℕ, Bool, true, false, ◌≡◌, refl, if◌then◌else◌, Option, none, some, arith, subst, Bool-cases,
  List, [], ◌∷◌, inl, inr,
}
use ds_service.Grpc.Client.Calls.{
  Outcome, Phase, starting, waiting, asking, stopping, ending, returned, Frame, GrpcClientTransport,
  Event, starts, completes, answers, wakes, leaves, happen, enter, begin_call, start_call, complete,
  time_out, answer, raise, wake, leave, end_call, close, try_cancel, put, outcome_of,
}
use ds_service.Grpc.Client.Calls.Expected.{expected, outcome_of-expected}
use ds_service.Grpc.Client.Calls.Raised.{Raised, Steps-Raised}
use ds_service.Grpc.Server.{Status}
use ds_service.Grpc.Client.Calls.Steps.{
  in_flight, Steps, initial, is_starting, IsSafe, FrameIsSafe, reachable-AllSafe,
}

abbrev pub run :
    {E A : Type 0}
    → Bool
    → List (Event E A)
    → GrpcClientTransport E A
    → Option (GrpcClientTransport E A)
run asks [] t = some t
run asks (event ∷ events) t = elim (happen asks event t) [
  | none ↦ none
  | some u ↦ run asks events u
]

-- What the thread of a call that has started still does once the call is done, where should_cancel
-- returns false if it runs.
abbrev pub own_events : {E A : Type 0} → ℕ → Phase E A → List (Event E A)
own_events p starting = []
own_events p (waiting is_cancelled) = wakes p ∷ leaves p ∷ []
own_events p asking = answers p false ∷ wakes p ∷ leaves p ∷ []
own_events p (stopping failure) = wakes p ∷ leaves p ∷ []
own_events p (ending failure) = leaves p ∷ []
own_events p (returned outcome) = []

-- What should_cancel has thrown.
abbrev pub failure_of : {E A : Type 0} → Phase E A → Option E
failure_of starting = none
failure_of (waiting is_cancelled) = none
failure_of asking = none
failure_of (stopping failure) = some failure
failure_of (ending failure) = failure
failure_of (returned outcome) = none

abbrev pub LeavesWith : {E A : Type 0} → ℕ → Outcome E A → Option (GrpcClientTransport E A) → Type 0
LeavesWith p outcome none = ⊥
LeavesWith p outcome (some u) =
    (u.calls p ≡ false) × elim (u.frames p) [ none ↦ ⊥ | some g ↦ g.phase ≡ returned outcome ]

returns :
    {E A : Type 0} (asks : Bool) (t : GrpcClientTransport E A) (p : ℕ) (f : Frame E A)
    (phase : Phase E A)
    → f.phase ≡ phase
    → t.frames p ≡ some f
    → in_flight phase ≡ true
    → is_starting phase ≡ false
    → f.call.done ≡ true
    → LeavesWith p (outcome_of (failure_of phase) t.closed f) (run asks (own_events p phase) t)
unfolding happen enter begin_call complete time_out answer raise wake leave end_call close
    try_cancel
returns asks t p f starting e at_p live started d = cc
returns asks t p f (waiting is_cancelled) e at_p live started d = ground arith
returns asks t p f asking e at_p live started d = ground arith
returns asks t p f (stopping failure) e at_p live started d = ground arith
returns asks t p f (ending failure) e at_p live started d = ground arith
returns asks t p f (returned outcome) e at_p live started d = cc

-- The frame of a call, once gRPC has completed the call with this status and this response.
abbrev pub written : {E A : Type 0} → Status → A → Frame E A → Frame E A
written status response f = record f {
  call = record { cancel_requested = f.call.cancel_requested; done = true; status = status };
  response = response;
}

-- ... if it had not before
abbrev pub completed : {E A : Type 0} → Status → A → Frame E A → Frame E A
completed status response f = if f.call.done then f else written status response f

-- The events that are left until a call in flight has returned
abbrev pub rest_of : {E A : Type 0} → ℕ → Status → A → Frame E A → List (Event E A)
rest_of p status response f =
    if is_starting f.phase
    then starts p ∷ completes p status response ∷ wakes p ∷ leaves p ∷ []
    else if f.call.done
    then own_events p f.phase
    else completes p status response ∷ own_events p f.phase

then_returns :
    {E A : Type 0} (asks : Bool) (t : GrpcClientTransport E A) (p : ℕ) (f : Frame E A)
    (status : Status) (response : A)
    → in_flight f.phase ≡ true
    → is_starting f.phase ≡ false
    → LeavesWith p
        (outcome_of (failure_of f.phase) t.closed (written status response f))
        (run asks (own_events p f.phase) (put p (written status response f) t))
then_returns asks t p f status response live started =
    returns asks (put p (written status response f) t) p (written status response f) f.phase refl
      (ground arith) live started refl

first_returns :
    {E A : Type 0} (asks : Bool) (t : GrpcClientTransport E A) (p : ℕ) (f : Frame E A)
    (status : Status) (response : A)
    → t.frames p ≡ some f
    → f.phase ≡ starting
    → f.call.done ≡ false
    → LeavesWith p
        (outcome_of none t.closed (written status response f))
        (run asks (starts p ∷ completes p status response ∷ wakes p ∷ leaves p ∷ []) t)
unfolding happen start_call complete
first_returns asks t p f status response at_p e d =
    let begun : Frame _ _ = record f { started = true; phase = waiting false } in
    ground (arith, then_returns asks (put p begun t) p begun status response refl refl)

is_starting-starting :
    {E A : Type 0} (phase : Phase E A) → is_starting phase ≡ true → phase ≡ starting
is_starting-starting starting e = refl
is_starting-starting (waiting is_cancelled) e = ground arith
is_starting-starting asking e = ground arith
is_starting-starting (stopping failure) e = ground arith
is_starting-starting (ending failure) e = ground arith
is_starting-starting (returned outcome) e = ground arith

invoke_leaves :
    {E A : Type 0} (asks : Bool) (t : GrpcClientTransport E A) (p : ℕ) (f : Frame E A)
    (status : Status) (response : A)
    → Steps asks initial t
    → t.frames p ≡ some f
    → in_flight f.phase ≡ true
    → LeavesWith p
        (outcome_of (failure_of f.phase) t.closed (completed status response f))
        (run asks (rest_of p status response f) t)
unfolding happen complete
invoke_leaves asks t p f status response reached at_p live =
    let safe : FrameIsSafe t.closed (t.calls p) f =
      subst (IsSafe t.closed (t.calls p)) at_p (reachable-AllSafe asks t reached p) in
    elim (Bool-cases (is_starting f.phase)) [
      | inl first ↦
          let e : f.phase ≡ starting = is_starting-starting f.phase first in
          let d : f.call.done ≡ false = safe.fresh (ground (arith, safe.begun live)) in
          ground (arith, first_returns asks t p f status response at_p e d)
      | inr started ↦ elim (Bool-cases f.call.done) [
        | inl d ↦ ground (arith, returns asks t p f f.phase refl at_p live started d)
        | inr d ↦
            ground (arith, safe.begun live, then_returns asks t p f status response live started)
      ]
    ]

kept-Raised :
    {E A : Type 0} (asks : Bool) (t : GrpcClientTransport E A) (p : ℕ) (f : Frame E A)
    (reached : Steps asks initial t) (failure : E)
    → t.frames p ≡ some f
    → failure_of f.phase ≡ some failure
    → Raised reached p failure
kept-Raised asks t p f reached failure at_p kept =
    elim (Steps-Raised asks initial t reached p failure (ground (arith, at_p, kept))) [
      | inl never ↦ absurd (ground (arith, never))
      | inr raised ↦ raised
    ]

-- From any state that the events of a client reach, these events can follow for a call in flight, and
-- they end its `invoke`: the stub starts the call, if it has not; gRPC completes it with some status and
-- response, if it has not; and at most three steps of its own thread follow, with false from
-- should_cancel if that is running. If the call keeps an exception, then should_cancel threw it in this
-- call, and `invoke` ends with it. Else `invoke` ends with the response if the status is OK, with Closed
-- if it is CANCELLED and the client is closed, and with the error of the status otherwise. The address
-- of the call is out of calls_.
pub invoke-Returns :
    {E A : Type 0} (asks : Bool) (t : GrpcClientTransport E A) (p : ℕ) (f : Frame E A)
    (status : Status) (response : A) (reached : Steps asks initial t)
    → t.frames p ≡ some f
    → in_flight f.phase ≡ true
    → ((failure : E) → failure_of f.phase ≡ some failure → Raised reached p failure)
      × LeavesWith p
          (expected
            (failure_of f.phase)
            t.closed
            (completed status response f).call.status
            (completed status response f).response)
          (run asks (rest_of p status response f) t)
invoke-Returns asks t p f status response reached at_p live = (
  λ failure kept. kept-Raised asks t p f reached failure at_p kept,
  subst (λ outcome. LeavesWith p outcome (run asks (rest_of p status response f) t))
      (outcome_of-expected (failure_of f.phase) t.closed (completed status response f))
      (invoke_leaves asks t p f status response reached at_p live),
)
