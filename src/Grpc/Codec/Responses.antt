-- ===== src/Grpc/Codec/Responses.antt =====
-- The conversions of the responses of the other structures.
use ds_service.Base.{false, none, some, []}
use ds_service.Grpc.Codec.{Codec, value_or, add_strings, copy_strings, add_points, copy_points}
use ds_service.Grpc.Proto
use ds_service.Messages

abbrev pub encode_map_get_response :
    Messages.MapGetResponse → Proto.MapGetResponse → Proto.MapGetResponse
encode_map_get_response m out = record out { value = some m.value }

abbrev pub decode_map_get_response : Proto.MapGetResponse → Messages.MapGetResponse
decode_map_get_response m = record { value = value_or "" m.value }

abbrev pub map_get_response : Codec Messages.MapGetResponse Proto.MapGetResponse
map_get_response = record {
  bare = record { value = none };
  encode = encode_map_get_response;
  decode = decode_map_get_response;
}

abbrev pub encode_search_key_response :
    Messages.SearchKeyResponse → Proto.SearchKeyResponse → Proto.SearchKeyResponse
encode_search_key_response m out = record out { key = add_strings m.key out.key }

abbrev pub decode_search_key_response : Proto.SearchKeyResponse → Messages.SearchKeyResponse
decode_search_key_response m = record { key = copy_strings m.key }

abbrev pub search_key_response : Codec Messages.SearchKeyResponse Proto.SearchKeyResponse
search_key_response = record {
  bare = record { key = [] };
  encode = encode_search_key_response;
  decode = decode_search_key_response;
}

abbrev pub encode_journal_size_response :
    Messages.JournalSizeResponse → Proto.JournalSizeResponse → Proto.JournalSizeResponse
encode_journal_size_response m out = record out { size = some m.size }

abbrev pub decode_journal_size_response : Proto.JournalSizeResponse → Messages.JournalSizeResponse
decode_journal_size_response m = record { size = value_or 0 m.size }

abbrev pub journal_size_response : Codec Messages.JournalSizeResponse Proto.JournalSizeResponse
journal_size_response = record {
  bare = record { size = none };
  encode = encode_journal_size_response;
  decode = decode_journal_size_response;
}

abbrev pub encode_journal_read_response :
    Messages.JournalReadResponse → Proto.JournalReadResponse → Proto.JournalReadResponse
encode_journal_read_response m out = record out { entry = add_strings m.entry out.entry }

abbrev pub decode_journal_read_response : Proto.JournalReadResponse → Messages.JournalReadResponse
decode_journal_read_response m = record { entry = copy_strings m.entry }

abbrev pub journal_read_response : Codec Messages.JournalReadResponse Proto.JournalReadResponse
journal_read_response = record {
  bare = record { entry = [] };
  encode = encode_journal_read_response;
  decode = decode_journal_read_response;
}

abbrev pub encode_time_series_get_response :
    Messages.TimeSeriesGetResponse → Proto.TimeSeriesGetResponse → Proto.TimeSeriesGetResponse
encode_time_series_get_response m out = record out { point = add_points m.point out.point }

abbrev pub decode_time_series_get_response :
    Proto.TimeSeriesGetResponse → Messages.TimeSeriesGetResponse
decode_time_series_get_response m = record { point = copy_points m.point }

abbrev pub time_series_get_response :
    Codec Messages.TimeSeriesGetResponse Proto.TimeSeriesGetResponse
time_series_get_response = record {
  bare = record { point = [] };
  encode = encode_time_series_get_response;
  decode = decode_time_series_get_response;
}

abbrev pub encode_mutex_try_acquire_response :
    Messages.MutexTryAcquireResponse → Proto.MutexTryAcquireResponse → Proto.MutexTryAcquireResponse
encode_mutex_try_acquire_response m out = record out { acquired = some m.acquired }

abbrev pub decode_mutex_try_acquire_response :
    Proto.MutexTryAcquireResponse → Messages.MutexTryAcquireResponse
decode_mutex_try_acquire_response m = record { acquired = value_or false m.acquired }

abbrev pub mutex_try_acquire_response :
    Codec Messages.MutexTryAcquireResponse Proto.MutexTryAcquireResponse
mutex_try_acquire_response = record {
  bare = record { acquired = none };
  encode = encode_mutex_try_acquire_response;
  decode = decode_mutex_try_acquire_response;
}

abbrev pub encode_mutex_get_worker_id_response :
    Messages.MutexGetWorkerIdResponse
    → Proto.MutexGetWorkerIdResponse
    → Proto.MutexGetWorkerIdResponse
encode_mutex_get_worker_id_response m out = record out { worker_id = some m.worker_id }

abbrev pub decode_mutex_get_worker_id_response :
    Proto.MutexGetWorkerIdResponse → Messages.MutexGetWorkerIdResponse
decode_mutex_get_worker_id_response m = record { worker_id = value_or "" m.worker_id }

abbrev pub mutex_get_worker_id_response :
    Codec Messages.MutexGetWorkerIdResponse Proto.MutexGetWorkerIdResponse
mutex_get_worker_id_response = record {
  bare = record { worker_id = none };
  encode = encode_mutex_get_worker_id_response;
  decode = decode_mutex_get_worker_id_response;
}

abbrev pub encode_counter_get_next_value_response :
    Messages.CounterGetNextValueResponse
    → Proto.CounterGetNextValueResponse
    → Proto.CounterGetNextValueResponse
encode_counter_get_next_value_response m out = record out { value = some m.value }

abbrev pub decode_counter_get_next_value_response :
    Proto.CounterGetNextValueResponse → Messages.CounterGetNextValueResponse
decode_counter_get_next_value_response m = record { value = value_or 0 m.value }

abbrev pub counter_get_next_value_response :
    Codec Messages.CounterGetNextValueResponse Proto.CounterGetNextValueResponse
counter_get_next_value_response = record {
  bare = record { value = none };
  encode = encode_counter_get_next_value_response;
  decode = decode_counter_get_next_value_response;
}

abbrev pub encode_counter_get_current_value_response :
    Messages.CounterGetCurrentValueResponse
    → Proto.CounterGetCurrentValueResponse
    → Proto.CounterGetCurrentValueResponse
encode_counter_get_current_value_response m out = record out { value = some m.value }

abbrev pub decode_counter_get_current_value_response :
    Proto.CounterGetCurrentValueResponse → Messages.CounterGetCurrentValueResponse
decode_counter_get_current_value_response m = record { value = value_or 0 m.value }

abbrev pub counter_get_current_value_response :
    Codec Messages.CounterGetCurrentValueResponse Proto.CounterGetCurrentValueResponse
counter_get_current_value_response = record {
  bare = record { value = none };
  encode = encode_counter_get_current_value_response;
  decode = decode_counter_get_current_value_response;
}
