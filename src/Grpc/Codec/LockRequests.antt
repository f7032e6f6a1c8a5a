-- ===== src/Grpc/Codec/LockRequests.antt =====
-- The conversions of the requests to the mutexes and the counters.
use ds_service.Base.{none, some}
use ds_service.Grpc.Codec.{Codec, value_or}
use ds_service.Grpc.Proto
use ds_service.Messages

abbrev pub encode_mutex_try_acquire_request :
    Messages.MutexTryAcquireRequest → Proto.MutexTryAcquireRequest → Proto.MutexTryAcquireRequest
encode_mutex_try_acquire_request m out = record out {
  key = some m.key;
  worker_id = some m.worker_id;
}

abbrev pub decode_mutex_try_acquire_request :
    Proto.MutexTryAcquireRequest → Messages.MutexTryAcquireRequest
decode_mutex_try_acquire_request m = record {
  key = value_or "" m.key;
  worker_id = value_or "" m.worker_id;
}

abbrev pub mutex_try_acquire_request :
    Codec Messages.MutexTryAcquireRequest Proto.MutexTryAcquireRequest
mutex_try_acquire_request = record {
  bare = record { key = none; worker_id = none };
  encode = encode_mutex_try_acquire_request;
  decode = decode_mutex_try_acquire_request;
}

abbrev pub encode_mutex_release_request :
    Messages.MutexReleaseRequest → Proto.MutexReleaseRequest → Proto.MutexReleaseRequest
encode_mutex_release_request m out = record out { key = some m.key; worker_id = some m.worker_id }

abbrev pub decode_mutex_release_request : Proto.MutexReleaseRequest → Messages.MutexReleaseRequest
decode_mutex_release_request m = record {
  key = value_or "" m.key;
  worker_id = value_or "" m.worker_id;
}

abbrev pub mutex_release_request : Codec Messages.MutexReleaseRequest Proto.MutexReleaseRequest
mutex_release_request = record {
  bare = record { key = none; worker_id = none };
  encode = encode_mutex_release_request;
  decode = decode_mutex_release_request;
}

abbrev pub encode_mutex_get_worker_id_request :
    Messages.MutexGetWorkerIdRequest → Proto.MutexGetWorkerIdRequest → Proto.MutexGetWorkerIdRequest
encode_mutex_get_worker_id_request m out = record out { key = some m.key }

abbrev pub decode_mutex_get_worker_id_request :
    Proto.MutexGetWorkerIdRequest → Messages.MutexGetWorkerIdRequest
decode_mutex_get_worker_id_request m = record { key = value_or "" m.key }

abbrev pub mutex_get_worker_id_request :
    Codec Messages.MutexGetWorkerIdRequest Proto.MutexGetWorkerIdRequest
mutex_get_worker_id_request = record {
  bare = record { key = none };
  encode = encode_mutex_get_worker_id_request;
  decode = decode_mutex_get_worker_id_request;
}

abbrev pub encode_counter_get_next_value_request :
    Messages.CounterGetNextValueRequest
    → Proto.CounterGetNextValueRequest
    → Proto.CounterGetNextValueRequest
encode_counter_get_next_value_request m out = record out { key = some m.key }

abbrev pub decode_counter_get_next_value_request :
    Proto.CounterGetNextValueRequest → Messages.CounterGetNextValueRequest
decode_counter_get_next_value_request m = record { key = value_or "" m.key }

abbrev pub counter_get_next_value_request :
    Codec Messages.CounterGetNextValueRequest Proto.CounterGetNextValueRequest
counter_get_next_value_request = record {
  bare = record { key = none };
  encode = encode_counter_get_next_value_request;
  decode = decode_counter_get_next_value_request;
}

abbrev pub encode_counter_get_current_value_request :
    Messages.CounterGetCurrentValueRequest
    → Proto.CounterGetCurrentValueRequest
    → Proto.CounterGetCurrentValueRequest
encode_counter_get_current_value_request m out = record out { key = some m.key }

abbrev pub decode_counter_get_current_value_request :
    Proto.CounterGetCurrentValueRequest → Messages.CounterGetCurrentValueRequest
decode_counter_get_current_value_request m = record { key = value_or "" m.key }

abbrev pub counter_get_current_value_request :
    Codec Messages.CounterGetCurrentValueRequest Proto.CounterGetCurrentValueRequest
counter_get_current_value_request = record {
  bare = record { key = none };
  encode = encode_counter_get_current_value_request;
  decode = decode_counter_get_current_value_request;
}
