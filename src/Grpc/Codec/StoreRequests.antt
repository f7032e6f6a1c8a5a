-- ===== src/Grpc/Codec/StoreRequests.antt =====
-- The conversions of the requests to the map, the journals and the time series.
use ds_service.Base.{none, some}
use ds_service.Base.Int.{pos}
use ds_service.Double.{zero_double}
use ds_service.Grpc.Codec.{Codec, value_or, set_if}
use ds_service.Grpc.Proto
use ds_service.Messages

abbrev pub encode_map_set_request :
    Messages.MapSetRequest → Proto.MapSetRequest → Proto.MapSetRequest
encode_map_set_request m out = record out { key = some m.key; value = some m.value }

abbrev pub decode_map_set_request : Proto.MapSetRequest → Messages.MapSetRequest
decode_map_set_request m = record { key = value_or "" m.key; value = value_or "" m.value }

abbrev pub map_set_request : Codec Messages.MapSetRequest Proto.MapSetRequest
map_set_request = record {
  bare = record { key = none; value = none };
  encode = encode_map_set_request;
  decode = decode_map_set_request;
}

abbrev pub encode_map_get_request :
    Messages.MapGetRequest → Proto.MapGetRequest → Proto.MapGetRequest
encode_map_get_request m out = record out { key = some m.key }

abbrev pub decode_map_get_request : Proto.MapGetRequest → Messages.MapGetRequest
decode_map_get_request m = record { key = value_or "" m.key }

abbrev pub map_get_request : Codec Messages.MapGetRequest Proto.MapGetRequest
map_get_request = record {
  bare = record { key = none };
  encode = encode_map_get_request;
  decode = decode_map_get_request;
}

abbrev pub encode_search_key_request :
    Messages.SearchKeyRequest → Proto.SearchKeyRequest → Proto.SearchKeyRequest
encode_search_key_request m out = record out { pattern = some m.pattern }

abbrev pub decode_search_key_request : Proto.SearchKeyRequest → Messages.SearchKeyRequest
decode_search_key_request m = record { pattern = value_or "" m.pattern }

abbrev pub search_key_request : Codec Messages.SearchKeyRequest Proto.SearchKeyRequest
search_key_request = record {
  bare = record { pattern = none };
  encode = encode_search_key_request;
  decode = decode_search_key_request;
}

abbrev pub encode_journal_size_request :
    Messages.JournalSizeRequest → Proto.JournalSizeRequest → Proto.JournalSizeRequest
encode_journal_size_request m out = record out { key = some m.key }

abbrev pub decode_journal_size_request : Proto.JournalSizeRequest → Messages.JournalSizeRequest
decode_journal_size_request m = record { key = value_or "" m.key }

abbrev pub journal_size_request : Codec Messages.JournalSizeRequest Proto.JournalSizeRequest
journal_size_request = record {
  bare = record { key = none };
  encode = encode_journal_size_request;
  decode = decode_journal_size_request;
}

abbrev pub encode_journal_read_request :
    Messages.JournalReadRequest → Proto.JournalReadRequest → Proto.JournalReadRequest
encode_journal_read_request m out = record out {
  key = some m.key;
  start = some m.start;
  end = some m.end;
}

abbrev pub decode_journal_read_request : Proto.JournalReadRequest → Messages.JournalReadRequest
decode_journal_read_request m = record {
  key = value_or "" m.key;
  start = value_or 0 m.start;
  end = value_or 0 m.end;
}

abbrev pub journal_read_request : Codec Messages.JournalReadRequest Proto.JournalReadRequest
journal_read_request = record {
  bare = record { key = none; start = none; end = none };
  encode = encode_journal_read_request;
  decode = decode_journal_read_request;
}

abbrev pub encode_journal_append_request :
    Messages.JournalAppendRequest → Proto.JournalAppendRequest → Proto.JournalAppendRequest
encode_journal_append_request m out = record out { key = some m.key; value = some m.value }

abbrev pub decode_journal_append_request :
    Proto.JournalAppendRequest → Messages.JournalAppendRequest
decode_journal_append_request m = record { key = value_or "" m.key; value = value_or "" m.value }

abbrev pub journal_append_request : Codec Messages.JournalAppendRequest Proto.JournalAppendRequest
journal_append_request = record {
  bare = record { key = none; value = none };
  encode = encode_journal_append_request;
  decode = decode_journal_append_request;
}

abbrev pub encode_time_series_append_request :
    Messages.TimeSeriesAppendRequest → Proto.TimeSeriesAppendRequest → Proto.TimeSeriesAppendRequest
encode_time_series_append_request m out = record out {
  key = some m.key;
  value = some m.value;
  datetime = some m.datetime;
  step = some m.step;
}

abbrev pub decode_time_series_append_request :
    Proto.TimeSeriesAppendRequest → Messages.TimeSeriesAppendRequest
decode_time_series_append_request m = record {
  key = value_or "" m.key;
  value = value_or zero_double m.value;
  datetime = value_or "" m.datetime;
  step = value_or (pos 0) m.step;
}

abbrev pub time_series_append_request :
    Codec Messages.TimeSeriesAppendRequest Proto.TimeSeriesAppendRequest
time_series_append_request = record {
  bare = record { key = none; value = none; datetime = none; step = none };
  encode = encode_time_series_append_request;
  decode = decode_time_series_append_request;
}

abbrev pub encode_time_series_get_request :
    Messages.TimeSeriesGetRequest → Proto.TimeSeriesGetRequest → Proto.TimeSeriesGetRequest
encode_time_series_get_request m out = record out {
  key = some m.key;
  start_time = set_if m.start_time out.start_time;
  end_time = set_if m.end_time out.end_time;
  start_step = set_if m.start_step out.start_step;
  end_step = set_if m.end_step out.end_step;
}

abbrev pub decode_time_series_get_request :
    Proto.TimeSeriesGetRequest → Messages.TimeSeriesGetRequest
decode_time_series_get_request m = record {
  key = value_or "" m.key;
  start_time = m.start_time;
  end_time = m.end_time;
  start_step = m.start_step;
  end_step = m.end_step;
}

abbrev pub time_series_get_request : Codec Messages.TimeSeriesGetRequest Proto.TimeSeriesGetRequest
time_series_get_request = record {
  bare = record {
    key = none;
    start_time = none;
    end_time = none;
    start_step = none;
    end_step = none;
  };
  encode = encode_time_series_get_request;
  decode = decode_time_series_get_request;
}
