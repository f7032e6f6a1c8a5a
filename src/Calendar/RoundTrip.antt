-- ===== src/Calendar/RoundTrip.antt =====
-- A time that is printed is parsed again.
use Prim.Native.Char.{Char}
use ds_service.Base.{
  ℕ, ◌+◌, ◌-◌, ◌*◌, ◌/◌, ◌%◌, ◌^◌, ◌≤◌, ◌<◌, ◌≡◌, refl, ap, ◌∙◌, inl, inr, String, Bool, true,
  false, ◌&&◌, none, some, List, [], ◌∷◌, ltb, get_or, arith, Bool-cases,
}
use ds_service.Base.Int.{ℤ, pos, negsuc}
use ds_service.Calendar.{
  second, day, epoch, margin, time_point, since_zero, fraction, date_time, zone, ending, parse,
  skip_ws, skip_spaces, print_seconds, print_microseconds, calendar,
}
use ds_service.Calendar.Civil.{is_valid, date_of, date_of_lem, days_of-date_of, month_lengths}
use ds_service.Calendar.Fields.{
  chars, text_of, chars-text_of, ◌>>=◌, ◌>>◌, exactly, number, literal, print, power_of_ten,
  number-print, digits, digits-print,
}
use ds_service.TimeSeries.{
  whole_second, floor_to, parse_formats, parse_iso8601_utc, format_iso8601_utc,
}

-- The years that four digits hold
abbrev pub IsShown : ℕ → Type 0
IsShown t = t < 24 * 146097 * day

record FieldsFit (t : ℕ) : Type 0 where
  year : (date_of (t / day)).year < power_of_ten 4
  month : (date_of (t / day)).month < power_of_ten 2
  date : (date_of (t / day)).day < power_of_ten 2
  valid : is_valid (date_of (t / day)) ≡ true

longest : (y m : ℕ) → get_or (month_lengths y) m 0 < 100
unfolding month_lengths get_or
longest y m = ground arith

fields-Fit : (t : ℕ) → IsShown t → FieldsFit t
unfolding is_valid power_of_ten
fields-Fit t shown =
    let d = date_of_lem (t / day) in
    let date = date_of (t / day) in
    record {
      year = omega (arith, d.in_era);
      month = ground (arith, d.valid);
      date = ground (arith, d.valid, longest date.year (date.month - 1));
      valid = d.valid;
    }

pub hundred : (n : ℕ) → n < 100 → n < power_of_ten 2
unfolding power_of_ten
hundred n h = h

clock_in_range :
    (t : ℕ)
    → (ltb (t % day / second / 3600) 24
        && ltb (t % day / second / 60 % 60) 60
        && ltb (t % day / second % 60) 60)
      ≡ true
clock_in_range t = ground arith

pub date_time-print_seconds :
    (t ns : ℕ) (rest left : List Char)
    → IsShown t
    → fraction rest ≡ some (ns, left)
    → date_time (print_seconds t rest) ≡ some (t / second * second + ns, left)
unfolding date_time print_seconds literal
date_time-print_seconds t ns rest left shown read =
    let f = fields-Fit t shown in
    let date = date_of (t / day) in
    let s : ℕ = t % day / second in
    let r5 = print 2 (s % 60) rest in
    let r4 = print 2 (s / 60 % 60) (":" ∷ r5) in
    let r3 = print 2 (s / 3600) (":" ∷ r4) in
    let r2 = print 2 date.day ("T" ∷ r3) in
    let r1 = print 2 date.month ("-" ∷ r2) in
    rw
      (
        ◌>>=◌,
        number-print 4 date.year ("-" ∷ r1) (omega arith) f.year,
        number-print 2 date.month ("-" ∷ r2) (omega arith) f.month,
        number-print 2 date.day ("T" ∷ r3) (omega arith) f.date,
        f.valid,
        number-print 2 (s / 3600) (":" ∷ r4) (omega arith) (hundred (s / 3600) (omega arith)),
        number-print 2 (s / 60 % 60) (":" ∷ r5) (omega arith) (hundred (s / 60 % 60) (omega arith)),
        number-print 2 (s % 60) rest (omega arith) (hundred (s % 60) (omega arith)),
        clock_in_range t,
        read,
      )
      (ap (λ n. some (n, left))
        (ap (λ n. n * day + (s / 3600 * 3600 + s / 60 % 60 * 60 + s % 60) * second + ns)
            (days_of-date_of (t / day))
          ∙ omega arith))

fraction-Z : fraction ("Z" ∷ []) ≡ some (0, "Z" ∷ [])
unfolding fraction digits ds_service.Calendar.Fields.digit_value
fraction-Z = refl

micro_digits : (n : ℕ) → digits 3 n 6 ("Z" ∷ []) ≡ ((n, 6), "Z" ∷ [])
unfolding digits ds_service.Calendar.Fields.digit_value
micro_digits n = refl

fraction-print :
    (n : ℕ) → n < 10 ^ 6 → fraction ("." ∷ print 6 n ("Z" ∷ [])) ≡ some (n * 1000, "Z" ∷ [])
unfolding fraction power_of_ten
fraction-print n small = rw (digits-print 6 3 n ("Z" ∷ []) small ∙ micro_digits n) refl

-- Neither form of an offset begins with Z, and the third format takes it.
zone-Z : (is_extended : Bool) (t : ℕ) → zone is_extended t ("Z" ∷ []) ≡ none
unfolding zone ds_service.Calendar.sign number exactly digits ds_service.Calendar.Fields.digit_value
zone-Z true t = refl
zone-Z false t = refl

at_extended : (t : ℕ) (rest : List Char) → ending "%Y-%m-%dT%H:%M:%S%Ez" t rest ≡ zone true t rest
unfolding ending
at_extended t rest = refl

at_basic : (t : ℕ) (rest : List Char) → ending "%Y-%m-%dT%H:%M:%S%z" t rest ≡ zone false t rest
unfolding ending
at_basic t rest = refl

parse-offset :
    (fmt : String) (is_extended : Bool) (t : ℕ) (text : List Char)
    → date_time text ≡ some (t, "Z" ∷ [])
    → ((rest : List Char) → ending fmt t rest ≡ zone is_extended t rest)
    → parse fmt (text_of text) ≡ none
unfolding parse
parse-offset fmt is_extended t text read e =
    rw (chars-text_of text, parse, ◌>>=◌, read, e ("Z" ∷ []), zone-Z is_extended t) refl

parse-Z :
    (t : ℕ) (text : List Char)
    → date_time text ≡ some (t, "Z" ∷ [])
    → parse "%Y-%m-%dT%H:%M:%SZ" (text_of text) ≡ some (time_point (t + margin), "")
unfolding parse ending literal
parse-Z t text read = rw (chars-text_of text, parse, ◌>>=◌, read) refl

pub skip_ws-empty : skip_ws "" ≡ ""
unfolding skip_ws skip_spaces chars
skip_ws-empty = refl

parsed-Z :
    (t : ℕ) (text : List Char)
    → date_time text ≡ some (t, "Z" ∷ [])
    → parse_iso8601_utc calendar (text_of text) ≡ some (time_point (t + margin))
unfolding parse_iso8601_utc parse_formats
parsed-Z t text read =
    rw
      (
        parse-offset "%Y-%m-%dT%H:%M:%S%Ez" true t text read (λ r. at_extended t r),
        parse-offset "%Y-%m-%dT%H:%M:%S%z" false t text read (λ r. at_basic t r),
        parse-Z t text read,
        skip_ws-empty,
        parse_formats,
      )
      refl

-- What a system_clock::time_point holds: 64 bits of nanoseconds
abbrev pub IsTimePoint : ℤ → Type 0
IsTimePoint (pos n) = n < 2 ^ 63
IsTimePoint (negsuc n) = n < 2 ^ 63

pub time_point-since_zero :
    (tp : ℤ) → IsTimePoint tp → IsShown (since_zero tp) × (time_point (since_zero tp + margin) ≡ tp)
unfolding time_point since_zero
time_point-since_zero (pos n) h = (omega arith, ground (arith, h))
time_point-since_zero (negsuc n) h = (ground (arith, h), ground (arith, h))

-- The times whose second begins at a time_point, so that the comparison with the whole second does not
-- overflow in the code: all but the first 0.86 seconds that a time_point holds.
abbrev pub HasSecond : ℤ → Type 0
HasSecond (pos n) = n < 2 ^ 63
HasSecond (negsuc n) = n < 9223372036 * 10 ^ 9

-- `x` is the last whole microsecond that is not after `tp`.
abbrev pub RoundsDown : ℤ → ℤ → Type 0
RoundsDown (pos x) (pos n) = (x ≤ n) × (n < x + 1000) × (x % 1000 ≡ 0)
RoundsDown (negsuc x) (negsuc n) = (n ≤ x) × (x < n + 1000) × ((x + 1) % 1000 ≡ 0)
RoundsDown (pos x) (negsuc n) = ⊥
RoundsDown (negsuc x) (pos n) = ⊥

floor-RoundsDown :
    (tp : ℤ)
    → HasSecond tp
    → IsTimePoint (floor_to 1000 tp)
      × RoundsDown (floor_to 1000 tp) tp
      × (since_zero (floor_to 1000 tp) % 1000 ≡ 0)
unfolding floor_to since_zero
floor-RoundsDown (pos n) h = (omega arith, (omega arith, omega arith, omega arith), omega arith)
floor-RoundsDown (negsuc n) h = (ground (arith, h), ground (arith, h), ground (arith, h))

whole-floor :
    (tp : ℤ)
    → HasSecond tp
    → whole_second tp ≡ true
    → (floor_to (10 ^ 9) tp ≡ floor_to 1000 tp) × (since_zero (floor_to 1000 tp) % 10 ^ 9 ≡ 0)
unfolding floor_to since_zero
whole-floor (pos n) h whole = (ground (arith, h, whole), ground (arith, h, whole))
whole-floor (negsuc n) h whole = (ground (arith, h, whole), ground (arith, h, whole))

seconds-parsed :
    (t : ℕ)
    → IsShown t
    → t % 10 ^ 9 ≡ 0
    → parse_iso8601_utc calendar (text_of (print_seconds t ("Z" ∷ [])))
      ≡ some (time_point (t + margin))
seconds-parsed t shown whole = parsed-Z t (print_seconds t ("Z" ∷ [])) (
    date_time-print_seconds t 0 ("Z" ∷ []) ("Z" ∷ []) shown fraction-Z
    ∙ ap (λ n. some (n, "Z" ∷ [])) (omega arith))

microseconds-parsed :
    (t : ℕ)
    → IsShown t
    → t % 1000 ≡ 0
    → parse_iso8601_utc calendar (text_of (print_microseconds t ("Z" ∷ [])))
      ≡ some (time_point (t + margin))
unfolding print_microseconds
microseconds-parsed t shown whole =
    let n : ℕ = t % second / 1000 in
    parsed-Z t (print_microseconds t ("Z" ∷ [])) (
      date_time-print_seconds t (n * 1000) ("." ∷ print 6 n ("Z" ∷ [])) ("Z" ∷ []) shown
        (fraction-print n (omega arith))
      ∙ ap (λ n. some (n, "Z" ∷ [])) (omega arith))

-- A time that is printed is parsed again, to the microsecond. Of a time that a time_point holds, where
-- its second begins at a time_point too, the text that format_iso8601_utc gives is accepted by
-- parse_iso8601_utc, and stands for a time_point: the last whole microsecond that is not after the time.
-- This is for the calendar of the standard.
pub parse_iso8601_utc-format_iso8601_utc :
    (tp : ℤ)
    → HasSecond tp
    → (x : ℤ) × (parse_iso8601_utc calendar (format_iso8601_utc calendar tp) ≡ some x)
      × IsTimePoint x
      × RoundsDown x tp
unfolding format_iso8601_utc
parse_iso8601_utc-format_iso8601_utc tp h =
    let (held, down, micro) = floor-RoundsDown tp h in
    let (shown, back) = time_point-since_zero (floor_to 1000 tp) held in
    elim (Bool-cases (whole_second tp)) [
      | inl whole ↦
          let (same, second_lem) = whole-floor tp h whole in
          (
            floor_to 1000 tp,
            rw (whole, same)
                (seconds-parsed (since_zero (floor_to 1000 tp)) shown second_lem ∙ ap some back),
            held,
            down,
          )
      | inr part ↦ (
        floor_to 1000 tp,
        rw part (microseconds-parsed (since_zero (floor_to 1000 tp)) shown micro ∙ ap some back),
        held,
        down,
      )
    ]
