-- ===== src/Tests/Times.antt =====
-- The calendar on single times.
use ds_service.Base.{ℕ, ◌≡◌, refl, ◌^◌, ◌*◌, ◌+◌, ◌<◌, ◌%◌, some, none, true, arith}
use ds_service.Base.Int.{ℤ, pos, negsuc}
use ds_service.Calendar.{calendar, second, since_zero, print_seconds, time_point}
use ds_service.Calendar.Fields.{text_of}
use ds_service.Calendar.Offsets.{offset_text, parse_iso8601_utc-offset}
use ds_service.Calendar.RoundTrip.{IsTimePoint, RoundsDown, parse_iso8601_utc-format_iso8601_utc}
use ds_service.TimeSeries.{format_iso8601_utc, parse_iso8601_utc}

in_2024 : format_iso8601_utc calendar (pos 1704164645000000000) ≡ "2024-01-02T03:04:05Z"
unfolding format_iso8601_utc ds_service.Calendar.print_microseconds print_seconds
    ds_service.Calendar.Fields.print ds_service.Calendar.Civil.date_of
    ds_service.Calendar.Civil.date_in ds_service.Calendar.Civil.year_in_era
    ds_service.Calendar.Civil.find_year ds_service.Calendar.since_zero
    ds_service.TimeSeries.floor_to ds_service.Calendar.Civil.days_in_year
    ds_service.Calendar.Civil.find_month ds_service.Calendar.Civil.month_lengths
in_2024 = refl

last_microsecond : format_iso8601_utc calendar (negsuc 0) ≡ "1969-12-31T23:59:59.999999Z"
unfolding format_iso8601_utc ds_service.Calendar.print_microseconds print_seconds
    ds_service.Calendar.Fields.print ds_service.Calendar.Civil.date_of
    ds_service.Calendar.Civil.date_in ds_service.Calendar.Civil.year_in_era
    ds_service.Calendar.Civil.find_year ds_service.Calendar.since_zero
    ds_service.TimeSeries.floor_to ds_service.Calendar.Civil.days_in_year
    ds_service.Calendar.Civil.find_month ds_service.Calendar.Civil.month_lengths
last_microsecond = refl

leap_day : parse_iso8601_utc calendar "2000-02-29T00:00:00+01:30" ≡ some (pos 951777000000000000)
unfolding parse_iso8601_utc ds_service.Calendar.parse ds_service.Calendar.date_time
    ds_service.Calendar.Fields.number ds_service.Calendar.Fields.chars
    ds_service.Calendar.Fields.literal ds_service.Calendar.Civil.is_valid ds_service.Base.get_or
    ds_service.Calendar.Civil.month_lengths ds_service.Calendar.fraction ds_service.Calendar.ending
    ds_service.Calendar.zone ds_service.Calendar.skip_ws time_point
    ds_service.Calendar.Civil.days_of
leap_day = refl

no_leap_day : parse_iso8601_utc calendar "1900-02-29T00:00:00" ≡ none
unfolding parse_iso8601_utc ds_service.Calendar.parse ds_service.Calendar.date_time
    ds_service.Calendar.Fields.number ds_service.Calendar.Fields.chars
    ds_service.Calendar.Fields.literal ds_service.Calendar.Civil.is_valid ds_service.Base.get_or
    ds_service.Calendar.Civil.month_lengths
no_leap_day = refl

-- 2500 is past the last year of a time_point: the count wraps.
past_the_last :
    parse_iso8601_utc calendar "2500-01-01T00:00:00Z" ≡ some (negsuc 1721518473709551615)
unfolding parse_iso8601_utc ds_service.Calendar.parse ds_service.Calendar.date_time
    ds_service.Calendar.Fields.number ds_service.Calendar.Fields.chars
    ds_service.Calendar.Fields.literal ds_service.Calendar.Civil.is_valid ds_service.Base.get_or
    ds_service.Calendar.Civil.month_lengths ds_service.Calendar.fraction ds_service.Calendar.ending
    ds_service.Calendar.zone ds_service.Calendar.skip_ws time_point
    ds_service.Calendar.Civil.days_of ds_service.Calendar.Civil.days_in_year
past_the_last = refl

parse_iso8601_utc-format_iso8601_utc_example :
    (x : ℤ) × (parse_iso8601_utc calendar (format_iso8601_utc calendar (negsuc 0)) ≡ some x)
    × IsTimePoint x
    × RoundsDown x (negsuc 0)
parse_iso8601_utc-format_iso8601_utc_example =
    parse_iso8601_utc-format_iso8601_utc (negsuc 0) (omega arith)

abbrev two_o_clock : ℤ
two_o_clock = pos (7200 * second)

parse_iso8601_utc-offset_example :
    parse_iso8601_utc calendar
      (text_of (print_seconds (since_zero two_o_clock) (offset_text true 5 30)))
    ≡ some (pos (27000 * second))
unfolding since_zero
parse_iso8601_utc-offset_example =
    parse_iso8601_utc-offset true 5 30 two_o_clock (pos (27000 * second)) (omega arith)
      (omega arith) (omega arith) (omega arith) (omega arith) (omega arith)
