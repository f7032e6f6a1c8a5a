-- ===== src/Grpc/Client/Calls/Expected.antt =====
-- How a call is to end, written out from the status, the response and what should_cancel threw.
use ds_service.Base.{Bool, ◌≡◌, refl, ap, Option, none, some, if◌then◌else◌, arith}
use ds_service.Error.{Result, ok, make_error, closed, cancelled}
use ds_service.Grpc.Client.{is_ok, is_cancelled, to_error, receive}
use ds_service.Grpc.Client.Calls.{Outcome, result, rethrown, Frame, outcome_of}
use ds_service.Grpc.Codec.{ok_status, cancelled_status, from_status_code}
use ds_service.Grpc.Server.{Status}

-- The response where the status is OK. CANCELLED is Closed in a closed client, and else Cancelled; any
-- other status is its own error.
abbrev pub answer_of : {A : Type 0} → Bool → Status → A → Result A
answer_of is_closed status response = elim status.code [
  | ok_status ↦ ok response
  | cancelled_status ↦
      if is_closed
      then make_error closed "The client is closed."
      else make_error cancelled status.message
  | code ↦ make_error (from_status_code code) status.message
]

-- What should_cancel threw comes before the answer.
abbrev pub expected : {E A : Type 0} → Option E → Bool → Status → A → Outcome E A
expected (some failure) is_closed status response = rethrown failure
expected none is_closed status response = result (answer_of is_closed status response)

pub receive-answer_of :
    {A : Type 0} (is_closed : Bool) (status : Status) (response : A)
    → receive is_closed status response ≡ answer_of is_closed status response
unfolding receive is_ok is_cancelled to_error from_status_code
receive-answer_of is_closed status response = ground arith

pub outcome_of-expected :
    {E A : Type 0} (failure : Option E) (is_closed : Bool) (f : Frame E A)
    → outcome_of failure is_closed f ≡ expected failure is_closed f.call.status f.response
outcome_of-expected none is_closed f =
    ap result (receive-answer_of is_closed f.call.status f.response)
outcome_of-expected (some failure) is_closed f = refl
