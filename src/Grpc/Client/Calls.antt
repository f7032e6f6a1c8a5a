-- ===== src/Grpc/Client/Calls.antt =====
-- cpp/grpc/client/grpc-client-transport.cpp: the calls in flight of a client, `invoke`, `begin_call`,
-- `end_call`, `wait` and `close`. Each event is what one thread does between two points where it waits or
-- takes a lock. The address of a call is a number. What gRPC does with a call, its deadline included, is
-- the event that completes it.
pub mod Steps
pub mod Expected
pub mod Raised
pub mod After
pub mod Closing
pub mod Returning
use ds_service.Base.{ℕ, Bool, true, false, not, ◌&&◌, eqb, if◌then◌else◌, Option, none, some}
use ds_service.Error.{Error, Result, ok, unexpected, closed}
use ds_service.Grpc.Client.{receive}
use ds_service.Grpc.Server.{Status, status_ok}

-- struct Call, with what its context was asked
pub record Call : Type 0 where
  pub cancel_requested : Bool
  pub done : Bool
  pub status : Status

-- What `invoke` ends with: a response or a ClientError, or what should_cancel threw.
pub data Outcome (E A : Type 0) : Type 0 where
  result : Result A → Outcome E A
  rethrown : E → Outcome E A

-- Where the thread of a call is: before the stub starts the call, in `wait` with its local `cancelled`,
-- in should_cancel, in the handler of what should_cancel threw, before `end_call` with the saved
-- failure, or out of `invoke`.
pub data Phase (E A : Type 0) : Type 0 where
  starting : Phase E A
  waiting : Bool → Phase E A
  asking : Phase E A
  stopping : E → Phase E A
  ending : Option E → Phase E A
  returned : Outcome E A → Phase E A

-- One run of `invoke`: its call, whether the stub has started it, the response that the callback writes.
pub record Frame (E A : Type 0) : Type 0 where
  pub call : Call
  pub started : Bool
  pub response : A
  pub phase : Phase E A

-- calls_ is a set, here its membership test.
pub record GrpcClientTransport (E A : Type 0) : Type 0 where
  pub closed : Bool
  pub calls : ℕ → Bool
  pub frames : ℕ → Option (Frame E A)

pub data Event (E A : Type 0) : Type 0 where
  enters : ℕ → A → Event E A
  starts : ℕ → Event E A
  completes : ℕ → Status → A → Event E A
  times_out : ℕ → Event E A
  answers : ℕ → Bool → Event E A
  raises : ℕ → E → Event E A
  wakes : ℕ → Event E A
  leaves : ℕ → Event E A
  closes : Event E A

abbrev pub client_closed : Error
client_closed = record { code = closed; message = "The client is closed." }

abbrev pub new_call : Call
new_call = record { cancel_requested = false; done = false; status = status_ok }

unfoldable pub try_cancel : {E A : Type 0} → Frame E A → Frame E A
try_cancel f = record f {
  call = record { cancel_requested = true; done = f.call.done; status = f.call.status };
}

abbrev pub put : {E A : Type 0} → ℕ → Frame E A → GrpcClientTransport E A → GrpcClientTransport E A
put p f t = record t { frames = λ q. if eqb p q then some f else t.frames q }

unfoldable pub begin_call :
    {E A : Type 0} → GrpcClientTransport E A → ℕ → Result (GrpcClientTransport E A)
begin_call t p =
    if t.closed
    then unexpected client_closed
    else ok (record t { calls = λ q. if eqb p q then true else t.calls q })

unfoldable pub end_call :
    {E A : Type 0} → GrpcClientTransport E A → ℕ → Bool × GrpcClientTransport E A
end_call t p = (t.closed, record t { calls = λ q. if eqb p q then false else t.calls q })

unfoldable pub close : {E A : Type 0} → GrpcClientTransport E A → GrpcClientTransport E A
unfolding try_cancel
close t = record t {
  closed = true;
  frames = λ q. elim (t.frames q) [
    | none ↦ none
    | some f ↦ some (if t.calls q then try_cancel f else f)
  ];
}

-- The start of `invoke`, by a thread whose call is at an address that no other call has.
unfoldable pub enter :
    {E A : Type 0} → ℕ → A → GrpcClientTransport E A → Option (GrpcClientTransport E A)
unfolding begin_call
enter p bare t = elim (t.frames p) [
  | some f ↦ none
  | none ↦ elim (begin_call t p) [
    | ok next ↦ some (
        put p (record { call = new_call; started = false; response = bare; phase = starting }) next)
    | unexpected error ↦ some (
        put p
          (record {
            call = new_call;
            started = false;
            response = bare;
            phase = returned (result (unexpected error));
          })
          t)
  ]
]

-- The stub starts the call. `close` can come before.
unfoldable pub start_call : {E A : Type 0} → Frame E A → Option (Frame E A)
start_call f = elim f.phase [
  | starting ↦ some (record f { started = true; phase = waiting false })
  | other ↦ none
]

-- The callback, once for each call that the stub has started.
unfoldable pub complete : {E A : Type 0} → Status → A → Frame E A → Option (Frame E A)
complete status response f =
    if f.started && not f.call.done
    then some (record f {
      call = record { cancel_requested = f.call.cancel_requested; done = true; status = status };
      response = response;
    })
    else none

-- CANCEL_POLL_INTERVAL has passed and the call is not done. Without should_cancel nothing wakes the
-- wait early.
unfoldable pub time_out : {E A : Type 0} → Bool → Frame E A → Option (Frame E A)
time_out asks f = elim f.phase [
  | waiting cancelled ↦
      if asks && not f.call.done
      then some (if cancelled then f else record f { phase = asking })
      else none
  | other ↦ none
]

-- should_cancel returns.
unfoldable pub answer : {E A : Type 0} → Bool → Frame E A → Option (Frame E A)
unfolding try_cancel
answer cancel f = elim f.phase [
  | asking ↦ some (
      if cancel
      then record (try_cancel f) { phase = waiting true }
      else record f { phase = waiting false })
  | other ↦ none
]

-- should_cancel throws.
unfoldable pub raise : {E A : Type 0} → E → Frame E A → Option (Frame E A)
unfolding try_cancel
raise failure f = elim f.phase [
  | asking ↦ some (record (try_cancel f) { phase = stopping failure })
  | other ↦ none
]

-- The thread sees that the call is done, in `wait` or in the handler.
unfoldable pub wake : {E A : Type 0} → Frame E A → Option (Frame E A)
wake f = elim f.phase [
  | waiting cancelled ↦ if f.call.done then some (record f { phase = ending none }) else none
  | stopping failure ↦
      if f.call.done then some (record f { phase = ending (some failure) }) else none
  | other ↦ none
]

abbrev pub outcome_of : {E A : Type 0} → Option E → Bool → Frame E A → Outcome E A
outcome_of (some failure) is_closed f = rethrown failure
outcome_of none is_closed f = result (receive is_closed f.call.status f.response)

-- The end of `invoke`, from `end_call` on
unfoldable pub leave :
    {E A : Type 0} → ℕ → GrpcClientTransport E A → Option (GrpcClientTransport E A)
unfolding end_call
leave p t = elim (t.frames p) [
  | none ↦ none
  | some f ↦ elim f.phase [
    | ending failure ↦ some (
        put p (record f { phase = returned (outcome_of failure (end_call t p).0 f) })
          (end_call t p).1)
    | other ↦ none
  ]
]

abbrev pub change :
    {E A : Type 0}
    → ℕ
    → (Frame E A → Option (Frame E A))
    → GrpcClientTransport E A
    → Option (GrpcClientTransport E A)
change p g t = elim (t.frames p) [
  | none ↦ none
  | some f ↦ elim (g f) [ none ↦ none | some next ↦ some (put p next t) ]
]

-- An event that cannot happen in a state has no outcome. `asks` tells whether should_cancel is set.
unfoldable pub happen :
    {E A : Type 0} → Bool → Event E A → GrpcClientTransport E A → Option (GrpcClientTransport E A)
unfolding enter start_call complete time_out answer raise wake leave close
happen asks (enters p bare) t = enter p bare t
happen asks (starts p) t = change p start_call t
happen asks (completes p status response) t = change p (complete status response) t
happen asks (times_out p) t = change p (time_out asks) t
happen asks (answers p cancel) t = change p (answer cancel) t
happen asks (raises p failure) t = change p (raise failure) t
happen asks (wakes p) t = change p wake t
happen asks (leaves p) t = leave p t
happen asks closes t = some (close t)
