-- ===== src/Grpc/Server.antt =====
-- cpp/grpc/server/grpc-server-transport.cpp: each RPC decodes its request, runs the operation of the
-- core and encodes the response, or gives the status of the refusal.
use ds_service.Base.{String}
use ds_service.Error.{Error, Result, ok, unexpected}
use ds_service.Grpc.Codec.{Codec, StatusCode, ok_status, to_status_code}
use ds_service.Grpc.Codec.TaskResponses.{
  task_cancel_response, task_get_count_by_state_response, task_get_output_response,
  task_get_priority_response, task_get_response, task_get_status_response,
  task_get_worker_id_response,
}
use ds_service.Grpc.Codec.Responses.{
  counter_get_current_value_response, counter_get_next_value_response, journal_read_response,
  journal_size_response, map_get_response, mutex_get_worker_id_response, mutex_try_acquire_response,
  search_key_response, time_series_get_response,
}
use ds_service.Grpc.Codec.TaskRequests.{
  decode_task_add_request, decode_task_cancel_request, decode_task_done_request,
  decode_task_get_output_request, decode_task_get_priority_request, decode_task_get_request,
  decode_task_get_status_request, decode_task_get_worker_id_request,
  decode_task_set_priority_request,
}
use ds_service.Grpc.Codec.StoreRequests.{
  decode_journal_append_request, decode_journal_read_request, decode_journal_size_request,
  decode_map_get_request, decode_map_set_request, decode_search_key_request,
  decode_time_series_append_request, decode_time_series_get_request,
}
use ds_service.Grpc.Codec.LockRequests.{
  decode_counter_get_current_value_request, decode_counter_get_next_value_request,
  decode_mutex_get_worker_id_request, decode_mutex_release_request,
  decode_mutex_try_acquire_request,
}
use ds_service.Grpc.Proto
use ds_service.Grpc.Rpc.{Rpc, Response}
use ds_service.SystemState.{SystemState}
use ds_service.Counters
use ds_service.Counters.{get_next_value, get_current_value}
use ds_service.JournalMap
use ds_service.JournalMap.{size, read}
use ds_service.Map
use ds_service.Mutexes
use ds_service.Mutexes.{try_acquire, release}
use ds_service.TaskManager.Add.{add}
use ds_service.TaskManager.Cancel.{cancel}
use ds_service.TaskManager.Done.{done}
use ds_service.TaskManager.Get
use ds_service.TaskManager.Priority.{set_priority}
use ds_service.TaskManager.Reads
use ds_service.TaskManager.Reads.{
  get_status, get_output, get_count_by_state, get_priority, search_id,
}
use ds_service.ThirdParty.{ThirdParty}
use ds_service.TimeSeries
use ds_service.TimeSeries.{Chrono}

-- grpc::Status
pub record Status : Type 0 where
  pub code : StatusCode
  pub message : String

abbrev pub status_ok : Status
status_ok = record { code = ok_status; message = "" }

unfoldable pub to_status : Error → Status
to_status error = record { code = to_status_code error.code; message = error.message }

-- The two overloads of `reply`.
unfoldable pub reply :
    {Plain Wire : Type 0} → Codec Plain Wire → Result Plain → Wire → Status × Wire
reply codec (ok value) response = (status_ok, codec.encode value response)
reply codec (unexpected error) response = (to_status error, response)

unfoldable pub reply_empty : Result (Unit {0}) → Proto.Empty → Status × Proto.Empty
reply_empty (ok value) response = (status_ok, response)
reply_empty (unexpected error) response = (to_status error, response)

abbrev pub no_response : Proto.Empty
no_response = record {}

module _ (P : ThirdParty) (C : Chrono) where
  -- DsServiceImpl: the method of the RPC, on a fresh response.
  unfoldable pub serve : SystemState P C → (r : Rpc) → (Status × Response r) × SystemState P C
  serve s (Rpc.map_set request) =
      let (result, map) = Map.set P s.map (decode_map_set_request request) in
      (reply_empty result no_response, record s { map = map })
  serve s (Rpc.map_get request) = (
    reply map_get_response (Map.get P s.map (decode_map_get_request request)) map_get_response.bare,
    s,
  )
  serve s (Rpc.map_search_key request) = (
    reply search_key_response (Map.search_key P s.map (decode_search_key_request request))
        search_key_response.bare,
    s,
  )
  serve s (Rpc.task_add request) =
      let (result, task_manager) = add P s.task_manager (decode_task_add_request request) in
      (reply_empty result no_response, record s { task_manager = task_manager })
  serve s (Rpc.task_get_status request) = (
    reply task_get_status_response
        (get_status P s.task_manager (decode_task_get_status_request request))
        task_get_status_response.bare,
    s,
  )
  serve s (Rpc.task_get_output request) = (
    reply task_get_output_response
        (get_output P s.task_manager (decode_task_get_output_request request))
        task_get_output_response.bare,
    s,
  )
  serve s (Rpc.task_get_count_by_state request) = (
    reply task_get_count_by_state_response (get_count_by_state P s.task_manager)
        task_get_count_by_state_response.bare,
    s,
  )
  serve s (Rpc.task_cancel request) =
      let (result, task_manager) = cancel P s.task_manager (decode_task_cancel_request request) in
      (
        reply task_cancel_response result task_cancel_response.bare,
        record s { task_manager = task_manager },
      )
  serve s (Rpc.task_get_priority request) = (
    reply task_get_priority_response
        (get_priority P s.task_manager (decode_task_get_priority_request request))
        task_get_priority_response.bare,
    s,
  )
  serve s (Rpc.task_set_priority request) =
      let (result, task_manager) =
        set_priority P s.task_manager (decode_task_set_priority_request request) in
      (reply_empty result no_response, record s { task_manager = task_manager })
  serve s (Rpc.task_get_worker_id request) = (
    reply task_get_worker_id_response
        (Reads.get_worker_id P s.task_manager (decode_task_get_worker_id_request request))
        task_get_worker_id_response.bare,
    s,
  )
  serve s (Rpc.task_search_id request) = (
    reply search_key_response (search_id P s.task_manager (decode_search_key_request request))
        search_key_response.bare,
    s,
  )
  serve s (Rpc.task_get request) =
      let (result, task_manager) = Get.get P s.task_manager (decode_task_get_request request) in
      (
        reply task_get_response result task_get_response.bare,
        record s { task_manager = task_manager },
      )
  serve s (Rpc.task_done request) =
      let (result, task_manager) = done P s.task_manager (decode_task_done_request request) in
      (reply_empty result no_response, record s { task_manager = task_manager })
  serve s (Rpc.journal_size request) = (
    reply journal_size_response (size P s.journal_map (decode_journal_size_request request))
        journal_size_response.bare,
    s,
  )
  serve s (Rpc.journal_read request) = (
    reply journal_read_response (read P s.journal_map (decode_journal_read_request request))
        journal_read_response.bare,
    s,
  )
  serve s (Rpc.journal_append request) =
      let (result, journal_map) =
        JournalMap.append P s.journal_map (decode_journal_append_request request) in
      (reply_empty result no_response, record s { journal_map = journal_map })
  serve s (Rpc.journal_search_key request) = (
    reply search_key_response
        (JournalMap.search_key P s.journal_map (decode_search_key_request request))
        search_key_response.bare,
    s,
  )
  serve s (Rpc.time_series_append request) =
      let (result, time_series) =
        TimeSeries.append P C s.time_series (decode_time_series_append_request request) in
      (reply_empty result no_response, record s { time_series = time_series })
  serve s (Rpc.time_series_get request) = (
    reply time_series_get_response
        (TimeSeries.get P C s.time_series (decode_time_series_get_request request))
        time_series_get_response.bare,
    s,
  )
  serve s (Rpc.time_series_search_key request) = (
    reply search_key_response
        (TimeSeries.search_key P C s.time_series (decode_search_key_request request))
        search_key_response.bare,
    s,
  )
  serve s (Rpc.mutex_try_acquire request) =
      let (result, mutexes) = try_acquire P s.mutexes (decode_mutex_try_acquire_request request) in
      (
        reply mutex_try_acquire_response result mutex_try_acquire_response.bare,
        record s { mutexes = mutexes },
      )
  serve s (Rpc.mutex_release request) =
      let (result, mutexes) = release P s.mutexes (decode_mutex_release_request request) in
      (reply_empty result no_response, record s { mutexes = mutexes })
  serve s (Rpc.mutex_get_worker_id request) = (
    reply mutex_get_worker_id_response
        (Mutexes.get_worker_id P s.mutexes (decode_mutex_get_worker_id_request request))
        mutex_get_worker_id_response.bare,
    s,
  )
  serve s (Rpc.mutex_search_key request) = (
    reply search_key_response (Mutexes.search_key P s.mutexes (decode_search_key_request request))
        search_key_response.bare,
    s,
  )
  serve s (Rpc.counter_get_next_value request) =
      let (result, counters) =
        get_next_value P s.counters (decode_counter_get_next_value_request request) in
      (
        reply counter_get_next_value_response result counter_get_next_value_response.bare,
        record s { counters = counters },
      )
  serve s (Rpc.counter_get_current_value request) = (
    reply counter_get_current_value_response
        (get_current_value P s.counters (decode_counter_get_current_value_request request))
        counter_get_current_value_response.bare,
    s,
  )
  serve s (Rpc.counter_search_key request) = (
    reply search_key_response (Counters.search_key P s.counters (decode_search_key_request request))
        search_key_response.bare,
    s,
  )
