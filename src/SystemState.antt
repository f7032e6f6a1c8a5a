-- ===== src/SystemState.antt =====
-- cpp/server/core/system-state.hpp: the state of the server, which holds one of each structure; and the
-- operations that cpp/client/include/ds-service/client-transport.hpp lists, on their plain messages.
use ds_service.Error.{Result}
use ds_service.Messages.{
  CounterGetCurrentValueRequest, CounterGetCurrentValueResponse, CounterGetNextValueRequest,
  CounterGetNextValueResponse, JournalAppendRequest, JournalReadRequest, JournalReadResponse,
  JournalSizeRequest, JournalSizeResponse, MapGetRequest, MapGetResponse, MapSetRequest,
  MutexGetWorkerIdRequest, MutexGetWorkerIdResponse, MutexReleaseRequest, MutexTryAcquireRequest,
  MutexTryAcquireResponse, SearchKeyRequest, SearchKeyResponse, TaskAddRequest, TaskCancelRequest,
  TaskCancelResponse, TaskDoneRequest, TaskGetCountByStateResponse, TaskGetOutputRequest,
  TaskGetOutputResponse, TaskGetPriorityRequest, TaskGetPriorityResponse, TaskGetRequest,
  TaskGetResponse, TaskGetStatusRequest, TaskGetStatusResponse, TaskGetWorkerIdRequest,
  TaskGetWorkerIdResponse, TaskSetPriorityRequest, TimeSeriesAppendRequest, TimeSeriesGetRequest,
  TimeSeriesGetResponse,
}
use ds_service.Counters
use ds_service.Counters.{get_next_value, get_current_value}
use ds_service.JournalMap
use ds_service.JournalMap.{size, read}
use ds_service.Map
use ds_service.Mutexes
use ds_service.Mutexes.{try_acquire, release}
use ds_service.TaskManager.Add.{add}
use ds_service.TaskManager.Cancel.{cancel}
use ds_service.TaskManager.Done.{done}
use ds_service.TaskManager.Get
use ds_service.TaskManager.Priority.{set_priority}
use ds_service.TaskManager.Reads
use ds_service.TaskManager.Reads.{
  get_status, get_output, get_count_by_state, get_priority, search_id,
}
use ds_service.TaskManager.State.{TaskManager}
use ds_service.ThirdParty.{ThirdParty}
use ds_service.TimeSeries
use ds_service.TimeSeries.{Chrono}

-- A call of an operation, with its request, and what it answers.
pub data Call : Type 0 where
  map_set : MapSetRequest → Call
  map_get : MapGetRequest → Call
  map_search_key : SearchKeyRequest → Call
  task_add : TaskAddRequest → Call
  task_get_status : TaskGetStatusRequest → Call
  task_get_output : TaskGetOutputRequest → Call
  task_get_count_by_state : Call
  task_cancel : TaskCancelRequest → Call
  task_get_priority : TaskGetPriorityRequest → Call
  task_set_priority : TaskSetPriorityRequest → Call
  task_get_worker_id : TaskGetWorkerIdRequest → Call
  task_search_id : SearchKeyRequest → Call
  task_get : TaskGetRequest → Call
  task_done : TaskDoneRequest → Call
  journal_size : JournalSizeRequest → Call
  journal_read : JournalReadRequest → Call
  journal_append : JournalAppendRequest → Call
  journal_search_key : SearchKeyRequest → Call
  time_series_append : TimeSeriesAppendRequest → Call
  time_series_get : TimeSeriesGetRequest → Call
  time_series_search_key : SearchKeyRequest → Call
  mutex_try_acquire : MutexTryAcquireRequest → Call
  mutex_release : MutexReleaseRequest → Call
  mutex_get_worker_id : MutexGetWorkerIdRequest → Call
  mutex_search_key : SearchKeyRequest → Call
  counter_get_next_value : CounterGetNextValueRequest → Call
  counter_get_current_value : CounterGetCurrentValueRequest → Call
  counter_search_key : SearchKeyRequest → Call

abbrev pub Answer : Call → Type 0
Answer (map_set request) = Unit {0}
Answer (map_get request) = MapGetResponse
Answer (map_search_key request) = SearchKeyResponse
Answer (task_add request) = Unit {0}
Answer (task_get_status request) = TaskGetStatusResponse
Answer (task_get_output request) = TaskGetOutputResponse
Answer task_get_count_by_state = TaskGetCountByStateResponse
Answer (task_cancel request) = TaskCancelResponse
Answer (task_get_priority request) = TaskGetPriorityResponse
Answer (task_set_priority request) = Unit {0}
Answer (task_get_worker_id request) = TaskGetWorkerIdResponse
Answer (task_search_id request) = SearchKeyResponse
Answer (task_get request) = TaskGetResponse
Answer (task_done request) = Unit {0}
Answer (journal_size request) = JournalSizeResponse
Answer (journal_read request) = JournalReadResponse
Answer (journal_append request) = Unit {0}
Answer (journal_search_key request) = SearchKeyResponse
Answer (time_series_append request) = Unit {0}
Answer (time_series_get request) = TimeSeriesGetResponse
Answer (time_series_search_key request) = SearchKeyResponse
Answer (mutex_try_acquire request) = MutexTryAcquireResponse
Answer (mutex_release request) = Unit {0}
Answer (mutex_get_worker_id request) = MutexGetWorkerIdResponse
Answer (mutex_search_key request) = SearchKeyResponse
Answer (counter_get_next_value request) = CounterGetNextValueResponse
Answer (counter_get_current_value request) = CounterGetCurrentValueResponse
Answer (counter_search_key request) = SearchKeyResponse

module _ (P : ThirdParty) (C : Chrono) where
  pub record SystemState : Type 0 where
    pub map : Map.Map P
    pub journal_map : JournalMap.JournalMap P
    pub time_series : TimeSeries.TimeSeriesMap P C
    pub mutexes : Mutexes.Mutexes P
    pub counters : Counters.Counters P
    pub task_manager : TaskManager P

  -- What the core does for a call that reaches it.
  unfoldable pub perform : SystemState → (c : Call) → Result (Answer c) × SystemState
  perform s (map_set request) =
      let (result, map) = Map.set P s.map request in (result, record s { map = map })
  perform s (map_get request) = (Map.get P s.map request, s)
  perform s (map_search_key request) = (Map.search_key P s.map request, s)
  perform s (task_add request) =
      let (result, task_manager) = add P s.task_manager request in
      (result, record s { task_manager = task_manager })
  perform s (task_get_status request) = (get_status P s.task_manager request, s)
  perform s (task_get_output request) = (get_output P s.task_manager request, s)
  perform s task_get_count_by_state = (get_count_by_state P s.task_manager, s)
  perform s (task_cancel request) =
      let (result, task_manager) = cancel P s.task_manager request in
      (result, record s { task_manager = task_manager })
  perform s (task_get_priority request) = (get_priority P s.task_manager request, s)
  perform s (task_set_priority request) =
      let (result, task_manager) = set_priority P s.task_manager request in
      (result, record s { task_manager = task_manager })
  perform s (task_get_worker_id request) = (Reads.get_worker_id P s.task_manager request, s)
  perform s (task_search_id request) = (search_id P s.task_manager request, s)
  perform s (task_get request) =
      let (result, task_manager) = Get.get P s.task_manager request in
      (result, record s { task_manager = task_manager })
  perform s (task_done request) =
      let (result, task_manager) = done P s.task_manager request in
      (result, record s { task_manager = task_manager })
  perform s (journal_size request) = (size P s.journal_map request, s)
  perform s (journal_read request) = (read P s.journal_map request, s)
  perform s (journal_append request) =
      let (result, journal_map) = JournalMap.append P s.journal_map request in
      (result, record s { journal_map = journal_map })
  perform s (journal_search_key request) = (JournalMap.search_key P s.journal_map request, s)
  perform s (time_series_append request) =
      let (result, time_series) = TimeSeries.append P C s.time_series request in
      (result, record s { time_series = time_series })
  perform s (time_series_get request) = (TimeSeries.get P C s.time_series request, s)
  perform s (time_series_search_key request) = (TimeSeries.search_key P C s.time_series request, s)
  perform s (mutex_try_acquire request) =
      let (result, mutexes) = try_acquire P s.mutexes request in
      (result, record s { mutexes = mutexes })
  perform s (mutex_release request) =
      let (result, mutexes) = release P s.mutexes request in
      (result, record s { mutexes = mutexes })
  perform s (mutex_get_worker_id request) = (Mutexes.get_worker_id P s.mutexes request, s)
  perform s (mutex_search_key request) = (Mutexes.search_key P s.mutexes request, s)
  perform s (counter_get_next_value request) =
      let (result, counters) = get_next_value P s.counters request in
      (result, record s { counters = counters })
  perform s (counter_get_current_value request) = (get_current_value P s.counters request, s)
  perform s (counter_search_key request) = (Counters.search_key P s.counters request, s)
