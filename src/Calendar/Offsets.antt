-- ===== src/Calendar/Offsets.antt =====
-- A time that is written with an offset from UTC, or with none.
use Prim.Native.Char.{Char}
use ds_service.Base.{
  ℕ, ◌+◌, ◌-◌, ◌*◌, ◌%◌, ◌<◌, ◌≡◌, refl, ap, ◌∙◌, Bool, true, false, some, List, [], ◌∷◌, ltb,
  if◌then◌else◌, arith,
}
use ds_service.Calendar.{
  second, margin, time_point, since_zero, fraction, date_time, zone, ending, parse, print_seconds,
  calendar, sign, extended_minutes,
}
use ds_service.Calendar.Fields.{
  text_of, chars-text_of, ◌>>=◌, literal, print, number-print, exactly-print,
}
use ds_service.Calendar.RoundTrip.{
  IsTimePoint, time_point-since_zero, IsShown, date_time-print_seconds, skip_ws-empty, hundred,
}
use ds_service.Base.Int.{ℤ}
use ds_service.TimeSeries.{parse_formats, parse_iso8601_utc}

-- "+hh:mm" or "-hh:mm"
abbrev pub offset_text : Bool → ℕ → ℕ → List Char
offset_text is_behind h m = (if is_behind then "-" else "+") ∷ print 2 h (":" ∷ print 2 m [])

abbrev pub offset : ℕ → ℕ → ℕ
offset h m = (h * 3600 + m * 60) * second

abbrev in_utc : Bool → ℕ → ℕ → ℕ → ℕ
in_utc is_behind t h m = if is_behind then t + margin + offset h m else t + margin - offset h m

fraction-offset :
    (is_behind : Bool) (h m : ℕ)
    → fraction (offset_text is_behind h m) ≡ some (0, offset_text is_behind h m)
unfolding fraction
fraction-offset true h m = refl
fraction-offset false h m = refl

below_hour : (m : ℕ) → m < 60 → ltb m 60 ≡ true
below_hour m h = ground (arith, h)

zone-offset :
    (is_behind : Bool) (t h m : ℕ)
    → h < 100
    → m < 60
    → zone true t (offset_text is_behind h m) ≡ some (in_utc is_behind t h m, [])
unfolding zone sign extended_minutes literal
zone-offset true t h m hours minutes =
    rw
      (
        ◌>>=◌,
        number-print 2 h (":" ∷ print 2 m []) (omega arith) (hundred h hours),
        exactly-print 2 m [] (hundred m (omega arith)),
        below_hour m minutes,
      )
      refl
zone-offset false t h m hours minutes =
    rw
      (
        ◌>>=◌,
        number-print 2 h (":" ∷ print 2 m []) (omega arith) (hundred h hours),
        exactly-print 2 m [] (hundred m (omega arith)),
        below_hour m minutes,
      )
      refl

date_time-offset :
    (is_behind : Bool) (t h m : ℕ)
    → IsShown t
    → t % second ≡ 0
    → date_time (print_seconds t (offset_text is_behind h m)) ≡ some (t, offset_text is_behind h m)
date_time-offset is_behind t h m shown whole =
    date_time-print_seconds t 0 (offset_text is_behind h m) (offset_text is_behind h m) shown
      (fraction-offset is_behind h m)
    ∙ ap (λ n. some (n, offset_text is_behind h m)) (omega arith)

parse-offset :
    (is_behind : Bool) (t h m : ℕ)
    → IsShown t
    → t % second ≡ 0
    → h < 100
    → m < 60
    → parse "%Y-%m-%dT%H:%M:%S%Ez" (text_of (print_seconds t (offset_text is_behind h m)))
      ≡ some (time_point (in_utc is_behind t h m), "")
unfolding parse ending
parse-offset is_behind t h m shown whole hours minutes =
    rw
      (
        chars-text_of (print_seconds t (offset_text is_behind h m)),
        parse,
        ◌>>=◌,
        date_time-offset is_behind t h m shown whole,
        zone-offset is_behind t h m hours minutes,
      )
      refl

-- The time point `tp` in UTC is the local time `local` less its offset, or with it if that is behind UTC.
abbrev pub IsLocal : Bool → ℕ → ℕ → ℤ → ℤ → Type 0
IsLocal is_behind h m local tp =
    if is_behind
    then (since_zero tp ≡ since_zero local + offset h m)
    else (since_zero local ≡ since_zero tp + offset h m)

in_utc-IsLocal :
    (is_behind : Bool) (h m : ℕ) (local tp : ℤ)
    → IsLocal is_behind h m local tp
    → in_utc is_behind (since_zero local) h m ≡ since_zero tp + margin
in_utc-IsLocal true h m local tp e = omega arith
in_utc-IsLocal false h m local tp e = omega arith

-- A local time that is written in whole seconds with its offset from UTC, "+hh:mm" or "-hh:mm", is read
-- as the time in UTC: the local time less the offset, or with it. The local time and the time in UTC are
-- such as a time_point holds. This is for the calendar of the standard.
pub parse_iso8601_utc-offset :
    (is_behind : Bool) (h m : ℕ) (local tp : ℤ)
    → h < 100
    → m < 60
    → IsTimePoint local
    → IsTimePoint tp
    → since_zero local % second ≡ 0
    → IsLocal is_behind h m local tp
    → parse_iso8601_utc calendar
        (text_of (print_seconds (since_zero local) (offset_text is_behind h m)))
      ≡ some tp
unfolding parse_iso8601_utc parse_formats
parse_iso8601_utc-offset is_behind h m local tp hours minutes held held_utc whole is_local =
    rw
      (
        parse-offset is_behind (since_zero local) h m (time_point-since_zero local held).0 whole
            hours minutes,
        skip_ws-empty,
        parse_formats,
      )
      (ap (λ t. some (time_point t)) (in_utc-IsLocal is_behind h m local tp is_local)
        ∙ ap some (time_point-since_zero tp held_utc).1)
