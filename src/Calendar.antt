-- ===== src/Calendar.antt =====
-- std::chrono::parse and std::format with the formats of cpp/server/core/time-series.cpp, as the C++
-- standard describes their fields: a number of at most the digits of its field, a second with a
-- fraction of up to nine digits, an offset [+|-]hh[mm] for %z and [+|-]h[h][:mm] for %Ez. A time counts
-- nanoseconds in 64 bits, and wraps; in C++ such an overflow is undefined.
pub mod Civil
pub mod Fields
pub mod Offsets
pub mod RoundTrip
use Prim.Native.Char.{Char, code}
use ds_service.Base.{
  ℕ, zero, suc, ◌+◌, ◌-◌, ◌*◌, ◌/◌, ◌%◌, ◌^◌, String, Bool, true, false, ◌&&◌, ◌||◌, Option, none,
  some, List, [], ◌∷◌, ◌==◌, eqb, leb, ltb, if◌then◌else◌,
}
use ds_service.Base.Int.{ℤ, pos, negsuc}
use ds_service.Calendar.Civil.{Date, is_valid, days_of, date_of}
use ds_service.Calendar.Fields.{
  chars, text_of, Parser, ◌>>=◌, ◌>>◌, pure, guard, digits, number, exactly, literal, print,
  power_of_ten,
}
use ds_service.TimeSeries.{Chrono}

abbrev pub second : ℕ
second = 10 ^ 9

abbrev pub day : ℕ
day = 86400 * 10 ^ 9

-- The epoch, counted from the first day of the year 0. A time of 64 bits is later than that day.
abbrev pub epoch : ℕ
epoch = 719528 * (86400 * 10 ^ 9)

-- Five days. A time that is read is counted from so much before the year 0, so that no offset leads out
-- of the natural numbers.
abbrev pub margin : ℕ
margin = 5 * (86400 * 10 ^ 9)

-- The time point of a time that is counted so: the nanoseconds from the epoch, as 64 bits of a two's
-- complement.
unfoldable pub time_point : ℕ → ℤ
time_point t =
    let bits : ℕ = (t + (4 * 2 ^ 64 + 2 ^ 63 - epoch - margin)) % 2 ^ 64 in
    if leb (2 ^ 63) bits then pos (bits - 2 ^ 63) else negsuc (2 ^ 63 - bits - 1)

unfoldable pub since_zero : ℤ → ℕ
since_zero (pos n) = epoch + n
since_zero (negsuc n) = epoch - (n + 1)

-- The fraction of a second, in nanoseconds
unfoldable pub fraction : Parser ℕ
unfolding digits
fraction [] = some (0, [])
fraction (c ∷ text) =
    let ((value, count), rest) = digits 9 0 0 text in
    if eqb (code c) (code ".") && ltb 0 count
    then some (value * power_of_ten (9 - count), rest)
    else some (0, c ∷ text)

-- %Y-%m-%dT%H:%M:%S
unfoldable pub date_time : Parser ℕ
date_time = do
  year ← number 4
  literal "-"
  month ← number 2
  literal "-"
  d ← number 2
  guard (is_valid (record { year = year; month = month; day = d }))
  literal "T"
  hours ← number 2
  literal ":"
  minutes ← number 2
  literal ":"
  seconds ← number 2
  guard (ltb hours 24 && ltb minutes 60 && ltb seconds 60)
  nanoseconds ← fraction
  pure (
      days_of (record { year = year; month = month; day = d }) * day
      + (hours * 3600 + minutes * 60 + seconds) * second
      + nanoseconds)

-- Whether an offset is behind UTC; its sign can be left out.
unfoldable pub sign : Parser Bool
sign [] = some (false, [])
sign (c ∷ text) =
    if eqb (code c) (code "-")
    then some (true, text)
    else if eqb (code c) (code "+")
    then some (false, text)
    else some (false, c ∷ text)

-- [mm], and [:mm]
unfoldable pub basic_minutes : Parser ℕ
unfolding exactly
basic_minutes text = elim (exactly 2 text) [ some read ↦ some read | none ↦ some (0, text) ]

unfoldable pub extended_minutes : Parser ℕ
unfolding exactly literal
extended_minutes text = elim (literal ":" text) [
  | some (mark, rest) ↦ exactly 2 rest
  | none ↦ some (0, text)
]

-- %z and %Ez after the local time `t` from the year 0: the time in UTC, from the margin on
unfoldable pub zone : Bool → ℕ → Parser ℕ
unfolding sign number exactly basic_minutes extended_minutes
zone is_extended t = do
  is_behind ← sign
  hours ← (if is_extended then number 2 else exactly 2)
  minutes ← (if is_extended then extended_minutes else basic_minutes)
  guard (ltb minutes 60)
  pure (
      if is_behind
      then t + margin + (hours * 3600 + minutes * 60) * second
      else t + margin - (hours * 3600 + minutes * 60) * second)

-- The rest of each of the four formats
unfoldable pub ending : String → ℕ → Parser ℕ
ending fmt t text =
    if fmt == "%Y-%m-%dT%H:%M:%S%Ez"
    then zone true t text
    else if fmt == "%Y-%m-%dT%H:%M:%S%z"
    then zone false t text
    else if fmt == "%Y-%m-%dT%H:%M:%SZ"
    then (literal "Z" >>= (λ mark. pure (t + margin))) text
    else if fmt == "%Y-%m-%dT%H:%M:%S"
    then some (t + margin, text)
    else none

unfoldable pub parse : String → String → Option (ℤ × String)
parse fmt text = elim ((date_time >>= ending fmt) (chars text)) [
  | none ↦ none
  | some (t, rest) ↦ some (time_point t, text_of rest)
]

-- std::ws
abbrev pub is_space : Char → Bool
is_space c = eqb (code c) 32 || (leb 9 (code c) && leb (code c) 13)

unfoldable pub skip_spaces : List Char → List Char
skip_spaces [] = []
skip_spaces (c ∷ text) = let rest = skip_spaces text in if is_space c then rest else c ∷ text

unfoldable pub skip_ws : String → String
unfolding skip_spaces
skip_ws text = text_of (skip_spaces (chars text))

-- %Y-%m-%dT%H:%M:%S of a time in whole seconds, in front of a text
unfoldable pub print_seconds : ℕ → List Char → List Char
print_seconds t rest =
    let date = date_of (t / day) in
    let s : ℕ = t % day / second in
    print 4 date.year (
      "-"
      ∷ print 2 date.month (
          "-"
          ∷ print 2 date.day (
              "T"
              ∷ print 2 (s / 3600) (":" ∷ print 2 (s / 60 % 60) (":" ∷ print 2 (s % 60) rest)))))

-- ... and in microseconds
unfoldable pub print_microseconds : ℕ → List Char → List Char
print_microseconds t rest = print_seconds t ("." ∷ print 6 (t % second / 1000) rest)

-- std::format with a Z after the field
abbrev pub calendar : Chrono
calendar = record {
  parse = parse;
  skip_ws = skip_ws;
  format_seconds = λ t. text_of (print_seconds (since_zero t) ("Z" ∷ []));
  format_microseconds = λ t. text_of (print_microseconds (since_zero t) ("Z" ∷ []));
}
