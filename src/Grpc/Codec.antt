-- ===== src/Grpc/Codec.antt =====
-- cpp/grpc/codec.cpp and codec.hpp: the conversions between the messages of the core and those of the
-- wire. An encode writes into a message that it is handed, which is a fresh one in every call.
pub mod TaskRequests
pub mod TaskResponses
pub mod StoreRequests
pub mod LockRequests
pub mod Responses
use ds_service.Base.{
  ℕ, String, ◌≡◌, refl, ap, Bool, true, false, Option, none, some, List, [], ◌∷◌, ◌++◌, ltb, eqb,
  if◌then◌else◌, arith,
}
use ds_service.Base.Int.{ℤ, pos, negsuc}
use ds_service.Double.{zero_double}
use ds_service.Error.{
  ErrorCode, not_found, already_exists, invalid_argument, failed_precondition, message_too_large,
  unavailable, deadline_exceeded, cancelled, closed, transport,
}
use ds_service.Grpc.Proto
use ds_service.Messages
use ds_service.TaskState.{TaskState, waiting, ready, running, finished, failed, canceled, undefined}

-- The two conversions of one message, and the message that the generated class constructs.
pub record Codec (Plain Wire : Type 0) : Type 0 where
  pub bare : Wire
  pub encode : Plain → Wire → Wire
  pub decode : Wire → Plain

-- A getter of a singular field gives a default value where the field is unset.
abbrev pub value_or : {A : Type 0} → A → Option A → A
value_or d none = d
value_or d (some v) = v

-- `if (value) { set(*value); }`
abbrev pub set_if : {A : Type 0} → Option A → Option A → Option A
set_if none field = field
set_if (some v) field = some v

abbrev pub add_strings : List String → List String → List String
add_strings values out = out ++ values

abbrev pub copy_strings : List String → List String
copy_strings field = field

unfoldable pub to_proto : TaskState → ℤ
to_proto waiting = pos 0
to_proto ready = pos 1
to_proto running = pos 2
to_proto finished = pos 3
to_proto failed = pos 4
to_proto canceled = pos 5
to_proto undefined = pos 6

-- A value out of the range of the enum reads as Undefined.
unfoldable pub from_proto : ℤ → TaskState
from_proto (negsuc n) = undefined
from_proto (pos n) =
    if ltb 6 n
    then undefined
    else if eqb n 0
    then waiting
    else if eqb n 1
    then ready
    else if eqb n 2
    then running
    else if eqb n 3
    then finished
    else if eqb n 4
    then failed
    else if eqb n 5
    then canceled
    else undefined

pub states_of : List TaskState → List ℤ
states_of [] = []
states_of (s ∷ states) = to_proto s ∷ states_of states

abbrev pub add_states : List TaskState → List ℤ → List ℤ
add_states states out = out ++ states_of states

pub copy_states : List ℤ → List TaskState
copy_states [] = []
copy_states (n ∷ field) = from_proto n ∷ copy_states field

pub points_of : List Messages.TimeSeriesDataPoint → List Proto.TimeSeriesDataPoint
points_of [] = []
points_of (p ∷ points) =
    record { value = some p.value; datetime = some p.datetime; step = some p.step }
    ∷ points_of points

abbrev pub add_points :
    List Messages.TimeSeriesDataPoint
    → List Proto.TimeSeriesDataPoint
    → List Proto.TimeSeriesDataPoint
add_points points out = out ++ points_of points

pub copy_points : List Proto.TimeSeriesDataPoint → List Messages.TimeSeriesDataPoint
copy_points [] = []
copy_points (p ∷ field) =
    record {
      value = value_or zero_double p.value;
      datetime = value_or "" p.datetime;
      step = value_or (pos 0) p.step;
    }
    ∷ copy_points field

from-to_proto : (s : TaskState) → from_proto (to_proto s) ≡ s
unfolding from_proto to_proto
from-to_proto s = ground arith

pub copy-states_of : (states : List TaskState) → copy_states (add_states states []) ≡ states
unfolding copy_states states_of
copy-states_of [] = refl
copy-states_of (s ∷ states) = cc (from-to_proto s, copy-states_of states)

pub copy-points_of :
    (points : List Messages.TimeSeriesDataPoint) → copy_points (add_points points []) ≡ points
unfolding copy_points points_of
copy-points_of [] = refl
copy-points_of (p ∷ points) = ap (◌∷◌ p) (copy-points_of points)

-- grpc::StatusCode, as far as the source names its values
pub data StatusCode : Type 0 where
  ok_status cancelled_status unknown_status invalid_argument_status : StatusCode
  deadline_exceeded_status not_found_status already_exists_status : StatusCode
  resource_exhausted_status failed_precondition_status unavailable_status : StatusCode
  other_status : ℕ → StatusCode

unfoldable pub to_status_code : ErrorCode → StatusCode
to_status_code not_found = not_found_status
to_status_code already_exists = already_exists_status
to_status_code invalid_argument = invalid_argument_status
to_status_code failed_precondition = failed_precondition_status
to_status_code message_too_large = resource_exhausted_status
to_status_code unavailable = unavailable_status
to_status_code deadline_exceeded = deadline_exceeded_status
to_status_code cancelled = cancelled_status
to_status_code closed = unknown_status
to_status_code transport = unknown_status

unfoldable pub from_status_code : StatusCode → ErrorCode
from_status_code not_found_status = not_found
from_status_code already_exists_status = already_exists
from_status_code invalid_argument_status = invalid_argument
from_status_code failed_precondition_status = failed_precondition
from_status_code resource_exhausted_status = message_too_large
from_status_code unavailable_status = unavailable
from_status_code deadline_exceeded_status = deadline_exceeded
from_status_code cancelled_status = cancelled
from_status_code _ = transport
