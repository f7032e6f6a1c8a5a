-- ===== src/Grpc/Client.antt =====
-- cpp/grpc/client/grpc-client-transport.cpp: each method encodes its request, makes the RPC and decodes
-- the response, or throws the ClientError that the status stands for. The RPC itself is gRPC's.
pub mod Calls
pub mod Transparent
use ds_service.Base.{Bool, ◌&&◌, true, false, if◌then◌else◌}
use ds_service.Error.{Error, ErrorCode, Result, ok, unexpected, closed}
use ds_service.Grpc.Codec.{StatusCode, ok_status, cancelled_status, from_status_code}
use ds_service.Grpc.Codec.TaskRequests.{
  task_add_request, task_cancel_request, task_done_request, task_get_output_request,
  task_get_priority_request, task_get_request, task_get_status_request, task_get_worker_id_request,
  task_set_priority_request,
}
use ds_service.Grpc.Codec.StoreRequests.{
  journal_append_request, journal_read_request, journal_size_request, map_get_request,
  map_set_request, search_key_request, time_series_append_request, time_series_get_request,
}
use ds_service.Grpc.Codec.LockRequests.{
  counter_get_current_value_request, counter_get_next_value_request, mutex_get_worker_id_request,
  mutex_release_request, mutex_try_acquire_request,
}
use ds_service.Grpc.Codec.TaskResponses.{
  decode_task_cancel_response, decode_task_get_count_by_state_response,
  decode_task_get_output_response, decode_task_get_priority_response, decode_task_get_response,
  decode_task_get_status_response, decode_task_get_worker_id_response,
}
use ds_service.Grpc.Codec.Responses.{
  decode_counter_get_current_value_response, decode_counter_get_next_value_response,
  decode_journal_read_response, decode_journal_size_response, decode_map_get_response,
  decode_mutex_get_worker_id_response, decode_mutex_try_acquire_response,
  decode_search_key_response, decode_time_series_get_response,
}
use ds_service.Grpc.Rpc.{Rpc, Response}
use ds_service.Grpc.Rpc
use ds_service.Grpc.Server.{Status, serve, no_response}
use ds_service.SystemState.{Call, Answer, SystemState}
use ds_service.SystemState
use ds_service.ThirdParty.{ThirdParty}
use ds_service.TimeSeries.{Chrono}

-- The request that a method sends.
abbrev pub request_of : Call → Rpc
request_of (SystemState.map_set request) =
    Rpc.map_set (map_set_request.encode request map_set_request.bare)
request_of (SystemState.map_get request) =
    Rpc.map_get (map_get_request.encode request map_get_request.bare)
request_of (SystemState.map_search_key request) =
    Rpc.map_search_key (search_key_request.encode request search_key_request.bare)
request_of (SystemState.task_add request) =
    Rpc.task_add (task_add_request.encode request task_add_request.bare)
request_of (SystemState.task_get_status request) =
    Rpc.task_get_status (task_get_status_request.encode request task_get_status_request.bare)
request_of (SystemState.task_get_output request) =
    Rpc.task_get_output (task_get_output_request.encode request task_get_output_request.bare)
request_of SystemState.task_get_count_by_state = Rpc.task_get_count_by_state no_response
request_of (SystemState.task_cancel request) =
    Rpc.task_cancel (task_cancel_request.encode request task_cancel_request.bare)
request_of (SystemState.task_get_priority request) =
    Rpc.task_get_priority (task_get_priority_request.encode request task_get_priority_request.bare)
request_of (SystemState.task_set_priority request) =
    Rpc.task_set_priority (task_set_priority_request.encode request task_set_priority_request.bare)
request_of (SystemState.task_get_worker_id request) =
    Rpc.task_get_worker_id
      (task_get_worker_id_request.encode request task_get_worker_id_request.bare)
request_of (SystemState.task_search_id request) =
    Rpc.task_search_id (search_key_request.encode request search_key_request.bare)
request_of (SystemState.task_get request) =
    Rpc.task_get (task_get_request.encode request task_get_request.bare)
request_of (SystemState.task_done request) =
    Rpc.task_done (task_done_request.encode request task_done_request.bare)
request_of (SystemState.journal_size request) =
    Rpc.journal_size (journal_size_request.encode request journal_size_request.bare)
request_of (SystemState.journal_read request) =
    Rpc.journal_read (journal_read_request.encode request journal_read_request.bare)
request_of (SystemState.journal_append request) =
    Rpc.journal_append (journal_append_request.encode request journal_append_request.bare)
request_of (SystemState.journal_search_key request) =
    Rpc.journal_search_key (search_key_request.encode request search_key_request.bare)
request_of (SystemState.time_series_append request) =
    Rpc.time_series_append
      (time_series_append_request.encode request time_series_append_request.bare)
request_of (SystemState.time_series_get request) =
    Rpc.time_series_get (time_series_get_request.encode request time_series_get_request.bare)
request_of (SystemState.time_series_search_key request) =
    Rpc.time_series_search_key (search_key_request.encode request search_key_request.bare)
request_of (SystemState.mutex_try_acquire request) =
    Rpc.mutex_try_acquire (mutex_try_acquire_request.encode request mutex_try_acquire_request.bare)
request_of (SystemState.mutex_release request) =
    Rpc.mutex_release (mutex_release_request.encode request mutex_release_request.bare)
request_of (SystemState.mutex_get_worker_id request) =
    Rpc.mutex_get_worker_id
      (mutex_get_worker_id_request.encode request mutex_get_worker_id_request.bare)
request_of (SystemState.mutex_search_key request) =
    Rpc.mutex_search_key (search_key_request.encode request search_key_request.bare)
request_of (SystemState.counter_get_next_value request) =
    Rpc.counter_get_next_value
      (counter_get_next_value_request.encode request counter_get_next_value_request.bare)
request_of (SystemState.counter_get_current_value request) =
    Rpc.counter_get_current_value
      (counter_get_current_value_request.encode request counter_get_current_value_request.bare)
request_of (SystemState.counter_search_key request) =
    Rpc.counter_search_key (search_key_request.encode request search_key_request.bare)

abbrev pub decode_response : (c : Call) → Response (request_of c) → Answer c
decode_response (SystemState.map_set request) response = tt
decode_response (SystemState.map_get request) response = decode_map_get_response response
decode_response (SystemState.map_search_key request) response = decode_search_key_response response
decode_response (SystemState.task_add request) response = tt
decode_response (SystemState.task_get_status request) response =
    decode_task_get_status_response response
decode_response (SystemState.task_get_output request) response =
    decode_task_get_output_response response
decode_response SystemState.task_get_count_by_state response =
    decode_task_get_count_by_state_response response
decode_response (SystemState.task_cancel request) response = decode_task_cancel_response response
decode_response (SystemState.task_get_priority request) response =
    decode_task_get_priority_response response
decode_response (SystemState.task_set_priority request) response = tt
decode_response (SystemState.task_get_worker_id request) response =
    decode_task_get_worker_id_response response
decode_response (SystemState.task_search_id request) response = decode_search_key_response response
decode_response (SystemState.task_get request) response = decode_task_get_response response
decode_response (SystemState.task_done request) response = tt
decode_response (SystemState.journal_size request) response = decode_journal_size_response response
decode_response (SystemState.journal_read request) response = decode_journal_read_response response
decode_response (SystemState.journal_append request) response = tt
decode_response (SystemState.journal_search_key request) response =
    decode_search_key_response response
decode_response (SystemState.time_series_append request) response = tt
decode_response (SystemState.time_series_get request) response =
    decode_time_series_get_response response
decode_response (SystemState.time_series_search_key request) response =
    decode_search_key_response response
decode_response (SystemState.mutex_try_acquire request) response =
    decode_mutex_try_acquire_response response
decode_response (SystemState.mutex_release request) response = tt
decode_response (SystemState.mutex_get_worker_id request) response =
    decode_mutex_get_worker_id_response response
decode_response (SystemState.mutex_search_key request) response =
    decode_search_key_response response
decode_response (SystemState.counter_get_next_value request) response =
    decode_counter_get_next_value_response response
decode_response (SystemState.counter_get_current_value request) response =
    decode_counter_get_current_value_response response
decode_response (SystemState.counter_search_key request) response =
    decode_search_key_response response

is_ok : StatusCode → Bool
is_ok ok_status = true
is_ok _ = false

is_cancelled : StatusCode → Bool
is_cancelled cancelled_status = true
is_cancelled _ = false

-- The ClientError of a failed status. A call that close() cancelled reports Closed.
unfoldable pub to_error : Status → Bool → Error
unfolding is_cancelled
to_error status is_closed =
    if is_closed && is_cancelled status.code
    then record { code = closed; message = "The client is closed." }
    else record { code = from_status_code status.code; message = status.message }

-- `invoke` once the call has completed
unfoldable pub receive : {A : Type 0} → Bool → Status → A → Result A
unfolding is_ok to_error
receive is_closed status response =
    if is_ok status.code then ok response else unexpected (to_error status is_closed)

module _ (P : ThirdParty) (C : Chrono) where
  -- A call of a client that reaches the server and whose response comes back.
  unfoldable pub remote : Bool → SystemState P C → (c : Call) → Result (Answer c) × SystemState P C
  unfolding receive
  remote is_closed s c =
      let ((status, response), after) = serve P C s (request_of c) in
      (receive is_closed status (decode_response c response), after)
