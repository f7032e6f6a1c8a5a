-- ===== src/Grpc/Rpc.antt =====
-- The service of cpp/grpc/ds-service.proto: one RPC per operation, with its request and its response.
use ds_service.Grpc.Proto

pub data Rpc : Type 0 where
  map_set : Proto.MapSetRequest → Rpc
  map_get : Proto.MapGetRequest → Rpc
  map_search_key : Proto.SearchKeyRequest → Rpc
  task_add : Proto.TaskAddRequest → Rpc
  task_get_status : Proto.TaskGetStatusRequest → Rpc
  task_get_output : Proto.TaskGetOutputRequest → Rpc
  task_get_count_by_state : Proto.Empty → Rpc
  task_cancel : Proto.TaskCancelRequest → Rpc
  task_get_priority : Proto.TaskGetPriorityRequest → Rpc
  task_set_priority : Proto.TaskSetPriorityRequest → Rpc
  task_get_worker_id : Proto.TaskGetWorkerIdRequest → Rpc
  task_search_id : Proto.SearchKeyRequest → Rpc
  task_get : Proto.TaskGetRequest → Rpc
  task_done : Proto.TaskDoneRequest → Rpc
  journal_size : Proto.JournalSizeRequest → Rpc
  journal_read : Proto.JournalReadRequest → Rpc
  journal_append : Proto.JournalAppendRequest → Rpc
  journal_search_key : Proto.SearchKeyRequest → Rpc
  time_series_append : Proto.TimeSeriesAppendRequest → Rpc
  time_series_get : Proto.TimeSeriesGetRequest → Rpc
  time_series_search_key : Proto.SearchKeyRequest → Rpc
  mutex_try_acquire : Proto.MutexTryAcquireRequest → Rpc
  mutex_release : Proto.MutexReleaseRequest → Rpc
  mutex_get_worker_id : Proto.MutexGetWorkerIdRequest → Rpc
  mutex_search_key : Proto.SearchKeyRequest → Rpc
  counter_get_next_value : Proto.CounterGetNextValueRequest → Rpc
  counter_get_current_value : Proto.CounterGetCurrentValueRequest → Rpc
  counter_search_key : Proto.SearchKeyRequest → Rpc

abbrev pub Response : Rpc → Type 0
Response (map_set request) = Proto.Empty
Response (map_get request) = Proto.MapGetResponse
Response (map_search_key request) = Proto.SearchKeyResponse
Response (task_add request) = Proto.Empty
Response (task_get_status request) = Proto.TaskGetStatusResponse
Response (task_get_output request) = Proto.TaskGetOutputResponse
Response (task_get_count_by_state request) = Proto.TaskGetCountByStateResponse
Response (task_cancel request) = Proto.TaskCancelResponse
Response (task_get_priority request) = Proto.TaskGetPriorityResponse
Response (task_set_priority request) = Proto.Empty
Response (task_get_worker_id request) = Proto.TaskGetWorkerIdResponse
Response (task_search_id request) = Proto.SearchKeyResponse
Response (task_get request) = Proto.TaskGetResponse
Response (task_done request) = Proto.Empty
Response (journal_size request) = Proto.JournalSizeResponse
Response (journal_read request) = Proto.JournalReadResponse
Response (journal_append request) = Proto.Empty
Response (journal_search_key request) = Proto.SearchKeyResponse
Response (time_series_append request) = Proto.Empty
Response (time_series_get request) = Proto.TimeSeriesGetResponse
Response (time_series_search_key request) = Proto.SearchKeyResponse
Response (mutex_try_acquire request) = Proto.MutexTryAcquireResponse
Response (mutex_release request) = Proto.Empty
Response (mutex_get_worker_id request) = Proto.MutexGetWorkerIdResponse
Response (mutex_search_key request) = Proto.SearchKeyResponse
Response (counter_get_next_value request) = Proto.CounterGetNextValueResponse
Response (counter_get_current_value request) = Proto.CounterGetCurrentValueResponse
Response (counter_search_key request) = Proto.SearchKeyResponse
