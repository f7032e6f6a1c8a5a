-- ===== src/TimeSeries.antt =====
-- cpp/server/core/time-series.cpp: the time series. A system_clock::time_point counts the nanoseconds
-- from 1970.
pub mod Rows
pub mod Points
use ds_service.Base.{
  ℕ, zero, suc, ◌+◌, ◌-◌, ◌%◌, ◌^◌, String, Bool, true, not, ◌&&◌, Option, none, some, List, [],
  ◌∷◌, ◌==◌, eqb, length, get_or, push_back, if◌then◌else◌,
}
use ds_service.Base.Int.{ℤ, pos, negsuc, ltb_ℤ}
use ds_service.Double.{Double, zero_double}
use ds_service.Error.{Result, ok, unexpected, make_error, invalid_argument}
use ds_service.Messages.{
  TimeSeriesAppendRequest, TimeSeriesDataPoint, TimeSeriesGetRequest, TimeSeriesGetResponse,
  SearchKeyRequest, SearchKeyResponse,
}
use ds_service.SearchKey
use ds_service.ThirdParty.{ThirdParty, subscript}

-- What the code uses of the library's calendar: std::chrono::parse by a format, with the time_point that
-- it reads and the text it leaves;
-- std::ws; and std::format of a time by "{:%Y-%m-%dT%H:%M:%S}", in seconds or in microseconds.
pub record Chrono : Type 0 where
  pub parse : String → String → Option (ℤ × String)
  pub skip_ws : String → String
  pub format_seconds : ℤ → String
  pub format_microseconds : ℤ → String

-- std::chrono::floor to a multiple of `unit`
unfoldable pub floor_to : ℕ → ℤ → ℤ
floor_to unit (pos n) = pos (n - n % unit)
floor_to unit (negsuc n) =
    let over = (n + 1) % unit in if eqb over 0 then negsuc n else negsuc (n + unit - over)

abbrev pub whole_second : ℤ → Bool
whole_second (pos n) = eqb (n % 10 ^ 9) 0
whole_second (negsuc n) = eqb ((n + 1) % 10 ^ 9) 0

pub record TimeSeries : Type 0 where
  pub value : List Double
  pub time : List ℤ
  pub step : List ℤ

abbrev pub empty_series : TimeSeries
empty_series = record { value = []; time = []; step = [] }

-- `bound && at < *bound`
unfoldable pub before : Option ℤ → ℤ → Bool
before bound at = elim bound [ none ↦ Bool.false | some b ↦ ltb_ℤ at b ]

-- `bound && at >= *bound`
unfoldable pub past : Option ℤ → ℤ → Bool
past bound at = elim bound [ none ↦ Bool.false | some b ↦ not (ltb_ℤ at b) ]

module _ (C : Chrono) where
  -- the loop over the formats
  unfoldable pub parse_formats : List String → String → Option ℤ
  parse_formats [] s = none
  parse_formats (fmt ∷ formats) s =
      let rest = parse_formats formats s in
      elim (C.parse fmt s) [
        | none ↦ rest
        | some (tp, left) ↦ if C.skip_ws left == "" then some tp else rest
      ]

  unfoldable pub parse_iso8601_utc : String → Option ℤ
  unfolding parse_formats
  parse_iso8601_utc s =
      parse_formats
        ("%Y-%m-%dT%H:%M:%S%Ez" ∷ "%Y-%m-%dT%H:%M:%S%z" ∷ "%Y-%m-%dT%H:%M:%SZ" ∷ "%Y-%m-%dT%H:%M:%S"
          ∷ [])
        s

  -- floor<seconds>(tp) == tp exactly for a whole second.
  unfoldable pub format_iso8601_utc : ℤ → String
  unfolding floor_to
  format_iso8601_utc tp =
      if whole_second tp
      then C.format_seconds (floor_to (10 ^ 9) tp)
      else C.format_microseconds (floor_to 1000 tp)

  -- the loop from `index` over the next `rounds` points
  unfoldable pub points_from :
      TimeSeries → Option ℤ → Option ℤ → TimeSeriesGetRequest → ℕ → ℕ → List TimeSeriesDataPoint
  unfolding before past
  points_from series start_time end_time request index zero = []
  points_from series start_time end_time request index (suc rounds) =
      let rest = points_from series start_time end_time request (index + 1) rounds in
      let time = get_or series.time index (pos 0) in
      let step = get_or series.step index (pos 0) in
      if before start_time time
      then rest
      else if past end_time time
      then rest
      else if before request.start_step step
      then rest
      else if past request.end_step step
      then rest
      else record {
        value = get_or series.value index zero_double;
        datetime = format_iso8601_utc time;
        step = step;
      }
        ∷ rest

-- A bound of the request: none where it is missing or empty, a refusal where it does not parse.
unfoldable pub parse_bound : Chrono → (String → String) → Option String → Result (Option ℤ)
parse_bound C complaint none = ok none
parse_bound C complaint (some text) =
    if text == "" then ok none else elim (parse_iso8601_utc C text) [
      | none ↦ make_error invalid_argument (complaint text)
      | some tp ↦ ok (some tp)
    ]

module _ (P : ThirdParty) (C : Chrono) where
  pub record TimeSeriesMap : Type 0 where
    pub entries : P.HashMap TimeSeries

  unfoldable pub append :
      TimeSeriesMap → TimeSeriesAppendRequest → Result (Unit {0}) × TimeSeriesMap
  unfolding subscript
  append m request = elim (parse_iso8601_utc C request.datetime) [
    | none ↦ (
      make_error invalid_argument
          (P.format "Invalid ISO 8601 UTC datetime: {}" (request.datetime ∷ [])),
      m,
    )
    | some tp ↦
        let (series, entries) = subscript P.maps empty_series m.entries request.key in
        let longer : TimeSeries = record {
          value = push_back series.value request.value;
          time = push_back series.time tp;
          step = push_back series.step request.step;
        } in
        (ok tt, record { entries = P.assign entries request.key longer })
  ]

  unfoldable pub get : TimeSeriesMap → TimeSeriesGetRequest → Result TimeSeriesGetResponse
  unfolding parse_bound points_from
  get m request =
      elim (parse_bound C (λ s. P.format "Invalid ISO 8601 UTC start_time: {}" (s ∷ []))
        request.start_time) [
          | unexpected e ↦ unexpected e
          | ok start_time ↦
              elim (parse_bound C (λ s. P.format "Invalid ISO 8601 UTC end_time: {}" (s ∷ []))
                request.end_time) [
                  | unexpected e ↦ unexpected e
                  | ok end_time ↦ elim (P.find m.entries request.key) [
                    | none ↦ ok (record { point = [] })
                    | some series ↦ ok (record {
                      point =
                          points_from C series start_time end_time request 0 (length series.value);
                    })
                  ]
                ]
        ]

  unfoldable pub search_key : TimeSeriesMap → SearchKeyRequest → Result SearchKeyResponse
  search_key m request = SearchKey.search P (P.keys m.entries) request
