-- ===== src/Grpc/Client/Transparent.antt =====
-- A call through the transport is the operation of the core.
use ds_service.Base.{false, ◌≡◌, refl, ap, ◌∙◌, Option, none, some, arith}
use ds_service.Error.{Error, ErrorCode, Result, ok, unexpected, closed, transport}
use ds_service.Grpc.Client.{receive, remote, is_ok, to_error, is_cancelled}
use ds_service.TimeSeries
use ds_service.Grpc.Codec.StoreRequests.{time_series_get_request}
use ds_service.Grpc.Codec.{
  Codec, set_if, from_status_code, to_status_code, copy-states_of, copy-points_of,
}
use ds_service.Grpc.Codec.TaskResponses.{
  task_cancel_response, task_get_count_by_state_response, task_get_output_response,
  task_get_priority_response, task_get_response, task_get_status_response,
  task_get_worker_id_response,
}
use ds_service.Grpc.Codec.Responses.{
  counter_get_current_value_response, counter_get_next_value_response, journal_read_response,
  journal_size_response, map_get_response, mutex_get_worker_id_response, mutex_try_acquire_response,
  search_key_response, time_series_get_response,
}
use ds_service.Grpc.Server.{reply, reply_empty, serve, to_status, no_response}
use ds_service.SystemState.{Call, Answer, SystemState, perform}
use ds_service.SystemState
use ds_service.ThirdParty.{ThirdParty}
use ds_service.TimeSeries.{Chrono}

-- The error code that a client sees for an error code of the core.
abbrev pub seen : ErrorCode → ErrorCode
seen code = from_status_code (to_status_code code)

abbrev pub across : {A : Type 0} → Result A → Result A
across (ok value) = ok value
across (unexpected error) = unexpected (record { code = seen error.code; message = error.message })

-- The codec decodes what it encoded.
abbrev RoundTrips : {Plain Wire : Type 0} → Codec Plain Wire → Type 0
RoundTrips {Plain = Plain} codec =
    (message : Plain) → codec.decode (codec.encode message codec.bare) ≡ message

receive-to_status :
    {A : Type 0} (error : Error) (response : A)
    → receive false (to_status error) response ≡ across (unexpected error)
unfolding receive to_status is_ok to_error is_cancelled from_status_code to_status_code
receive-to_status error response = ground arith

receive-reply :
    {Plain Wire : Type 0} (codec : Codec Plain Wire)
    → RoundTrips codec
    → (result : Result Plain)
    → receive false
        (reply codec result codec.bare).0
        (codec.decode (reply codec result codec.bare).1)
      ≡ across result
unfolding receive reply is_ok
receive-reply codec trip (ok value) = ap ok (trip value)
receive-reply codec trip (unexpected error) = receive-to_status error _

receive-reply_empty :
    (result : Result (Unit {0}))
    → receive {A = Unit {0}} false (reply_empty result no_response).0 tt ≡ across result
unfolding receive reply_empty is_ok
receive-reply_empty (ok value) = refl
receive-reply_empty (unexpected error) = receive-to_status error _

set_if-none : {A : Type 0} (v : Option A) → set_if v none ≡ v
set_if-none none = refl
set_if-none (some v) = refl

-- The four optional bounds of a range are left unset where they are missing.
time_series_get_request-trip : RoundTrips time_series_get_request
time_series_get_request-trip m = cc (
  set_if-none m.start_time,
  set_if-none m.end_time,
  set_if-none m.start_step,
  set_if-none m.end_step,
)

states-trip : RoundTrips task_get_status_response
states-trip m = ap (λ xs. record { state = xs }) (copy-states_of m.state)

points-trip : RoundTrips time_series_get_response
points-trip m = ap (λ xs. record { point = xs }) (copy-points_of m.point)

-- A client sees the error code that the core gave, with one exception: Closed, which a server never sends,
-- is seen as Transport.
pub codes_round_trip : (code : ErrorCode) → seen code ≡ elim code [ closed ↦ transport | c ↦ c ]
unfolding from_status_code to_status_code
codes_round_trip code = ground arith

module _ (P : ThirdParty) (C : Chrono) where
  -- What the client receives when the operation gives `r`, and what it shall receive.
  abbrev received :
      {Plain Wire : Type 0}
      → Codec Plain Wire
      → Result Plain × SystemState P C
      → Result Plain × SystemState P C
  received codec (result, next) = (
    receive false (reply codec result codec.bare).0
        (codec.decode (reply codec result codec.bare).1),
    next,
  )

  abbrev received_empty : Result (Unit {0}) × SystemState P C → Result (Unit {0}) × SystemState P C
  received_empty (result, next) = (receive false (reply_empty result no_response).0 tt, next)

  abbrev pub crossed : {A : Type 0} → Result A × SystemState P C → Result A × SystemState P C
  crossed (result, next) = (across result, next)

  through :
      {Plain Wire : Type 0} (codec : Codec Plain Wire)
      → RoundTrips codec
      → (r : Result Plain × SystemState P C) → received codec r ≡ crossed r
  through codec trip r = ap (λ a. (a, r.1)) (receive-reply codec trip r.0)

  through_empty : (r : Result (Unit {0}) × SystemState P C) → received_empty r ≡ crossed r
  through_empty r = ap (λ a. (a, r.1)) (receive-reply_empty r.0)

  -- The transport is transparent. For each of the 28 operations, a call of a client that is not closed,
  -- which encodes the request, runs the method of its RPC on the server and decodes the response,
  -- changes the state of the server as the operation of the core on the plain request does, and returns
  -- what that returns: the same response, or a refusal with the same message and the code that the
  -- client sees for it.
  pub remote-perform :
      (s : SystemState P C) (c : Call) → remote P C false s c ≡ crossed (perform P C s c)
  unfolding remote serve perform
  remote-perform s (SystemState.map_set request) =
      through_empty (perform P C s (SystemState.map_set request))
  remote-perform s (SystemState.map_get request) =
      through map_get_response (λ _. refl) (perform P C s (SystemState.map_get request))
  remote-perform s (SystemState.map_search_key request) =
      through search_key_response (λ _. refl) (perform P C s (SystemState.map_search_key request))
  remote-perform s (SystemState.task_add request) =
      through_empty (perform P C s (SystemState.task_add request))
  remote-perform s (SystemState.task_get_status request) =
      through task_get_status_response states-trip
        (perform P C s (SystemState.task_get_status request))
  remote-perform s (SystemState.task_get_output request) =
      through task_get_output_response (λ _. refl)
        (perform P C s (SystemState.task_get_output request))
  remote-perform s SystemState.task_get_count_by_state =
      through task_get_count_by_state_response (λ _. refl)
        (perform P C s SystemState.task_get_count_by_state)
  remote-perform s (SystemState.task_cancel request) =
      through task_cancel_response (λ _. refl) (perform P C s (SystemState.task_cancel request))
  remote-perform s (SystemState.task_get_priority request) =
      through task_get_priority_response (λ _. refl)
        (perform P C s (SystemState.task_get_priority request))
  remote-perform s (SystemState.task_set_priority request) =
      through_empty (perform P C s (SystemState.task_set_priority request))
  remote-perform s (SystemState.task_get_worker_id request) =
      through task_get_worker_id_response (λ _. refl)
        (perform P C s (SystemState.task_get_worker_id request))
  remote-perform s (SystemState.task_search_id request) =
      through search_key_response (λ _. refl) (perform P C s (SystemState.task_search_id request))
  remote-perform s (SystemState.task_get request) =
      through task_get_response (λ _. refl) (perform P C s (SystemState.task_get request))
  remote-perform s (SystemState.task_done request) =
      through_empty (perform P C s (SystemState.task_done request))
  remote-perform s (SystemState.journal_size request) =
      through journal_size_response (λ _. refl) (perform P C s (SystemState.journal_size request))
  remote-perform s (SystemState.journal_read request) =
      through journal_read_response (λ _. refl) (perform P C s (SystemState.journal_read request))
  remote-perform s (SystemState.journal_append request) =
      through_empty (perform P C s (SystemState.journal_append request))
  remote-perform s (SystemState.journal_search_key request) =
      through search_key_response (λ _. refl)
        (perform P C s (SystemState.journal_search_key request))
  remote-perform s (SystemState.time_series_append request) =
      through_empty (perform P C s (SystemState.time_series_append request))
  remote-perform s (SystemState.time_series_get request) =
      ap (λ q. received time_series_get_response (TimeSeries.get P C s.time_series q, s))
        (time_series_get_request-trip request)
      ∙ through time_series_get_response points-trip
          (perform P C s (SystemState.time_series_get request))
  remote-perform s (SystemState.time_series_search_key request) =
      through search_key_response (λ _. refl)
        (perform P C s (SystemState.time_series_search_key request))
  remote-perform s (SystemState.mutex_try_acquire request) =
      through mutex_try_acquire_response (λ _. refl)
        (perform P C s (SystemState.mutex_try_acquire request))
  remote-perform s (SystemState.mutex_release request) =
      through_empty (perform P C s (SystemState.mutex_release request))
  remote-perform s (SystemState.mutex_get_worker_id request) =
      through mutex_get_worker_id_response (λ _. refl)
        (perform P C s (SystemState.mutex_get_worker_id request))
  remote-perform s (SystemState.mutex_search_key request) =
      through search_key_response (λ _. refl) (perform P C s (SystemState.mutex_search_key request))
  remote-perform s (SystemState.counter_get_next_value request) =
      through counter_get_next_value_response (λ _. refl)
        (perform P C s (SystemState.counter_get_next_value request))
  remote-perform s (SystemState.counter_get_current_value request) =
      through counter_get_current_value_response (λ _. refl)
        (perform P C s (SystemState.counter_get_current_value request))
  remote-perform s (SystemState.counter_search_key request) =
      through search_key_response (λ _. refl)
        (perform P C s (SystemState.counter_search_key request))
