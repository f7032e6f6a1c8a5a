-- ===== src/Tests/Server.antt =====
-- The time series on three appends, and calls of a client.
use ds_service.Base.{◌≡◌, refl, String, false, none, some, List, [], ◌∷◌, ◌++◌, ◌==◌, if◌then◌else◌}
use ds_service.Base.Int.{pos}
use ds_service.Double.{zero_double}
use ds_service.Error.{ok, not_found}
use ds_service.Grpc.Client.{remote}
use ds_service.Grpc.Client.Transparent.{seen, crossed, remote-perform, codes_round_trip}
use ds_service.Counters
use ds_service.JournalMap
use ds_service.Map
use ds_service.Mutexes
use ds_service.SearchKey.Listing.{Lists, search_key-Lists}
use ds_service.TimeSeries
use ds_service.Messages.{SearchKeyRequest, TimeSeriesAppendRequest, TimeSeriesGetRequest}
use ds_service.SystemState.{SystemState, Call, perform, time_series_get}
use ds_service.TaskManager.Steps.{initial}
use ds_service.Tests.Library.{library}
use ds_service.TimeSeries.{Chrono, TimeSeriesMap, get}
use ds_service.TimeSeries.Points
use ds_service.TimeSeries.Rows

-- A calendar of two texts.
abbrev pub calendar : Chrono
calendar = record {
  parse = λ format text.
      if text == "one" then some (pos 1, "") else if text == "two" then some (pos 2, "") else none;
  skip_ws = λ text. text;
  format_seconds = λ time. "second";
  format_microseconds = λ time. "microsecond";
}

abbrev no_series : TimeSeriesMap library calendar
no_series = record { entries = [] }

abbrev at_time : String → TimeSeriesAppendRequest
at_time text = record { key = "k"; value = zero_double; datetime = text; step = pos 0 }

abbrev three_appends : List TimeSeriesAppendRequest
three_appends = at_time "one" ∷ at_time "two" ∷ at_time "never" ∷ []

abbrev from_two : TimeSeriesGetRequest
from_two = record {
  key = "k";
  start_time = some "two";
  end_time = none;
  start_step = none;
  end_step = some (pos 1);
}

get-run_example :
    get library calendar (Points.run library calendar no_series three_appends) from_two
    ≡ ok (record {
      point = Rows.shown calendar (some (pos 2)) none from_two (
          Points.points library calendar no_series "k"
          ++ Points.all_recorded library calendar three_appends "k");
    })
unfolding ds_service.TimeSeries.parse_bound ds_service.TimeSeries.parse_iso8601_utc
get-run_example =
    Points.get-run library calendar no_series three_appends from_two (some (pos 2)) none
      (λ key. (refl, refl)) refl refl

abbrev pub first_state : SystemState library calendar
first_state = record {
  map = record { entries = [] };
  journal_map = record { entries = [] };
  time_series = no_series;
  mutexes = record { entries = [] };
  counters = record { entries = [] };
  task_manager = initial library;
}

abbrev range_call : Call
range_call = time_series_get from_two

remote-perform_example :
    remote library calendar false first_state range_call
    ≡ crossed library calendar (perform library calendar first_state range_call)
remote-perform_example = remote-perform library calendar first_state range_call

codes_round_trip_example : seen not_found ≡ not_found
codes_round_trip_example = codes_round_trip not_found

abbrev search_k : SearchKeyRequest
search_k = record { pattern = "k" }

search_key-Lists_example :
    Lists library first_state.map.entries search_k (Map.search_key library first_state.map search_k)
    × Lists library first_state.journal_map.entries search_k
        (JournalMap.search_key library first_state.journal_map search_k)
    × Lists library no_series.entries search_k
        (TimeSeries.search_key library calendar no_series search_k)
    × Lists library first_state.mutexes.entries search_k
        (Mutexes.search_key library first_state.mutexes search_k)
    × Lists library first_state.counters.entries search_k
        (Counters.search_key library first_state.counters search_k)
search_key-Lists_example =
    search_key-Lists library calendar first_state.map first_state.journal_map no_series
      first_state.mutexes first_state.counters search_k
