-- ===== src/Calendar/Civil.antt =====
-- std::chrono::year_month_day: dates and the days since the first day of the year 0, and back.
use ds_service.Base.{
  ℕ, zero, suc, ◌+◌, ◌-◌, ◌*◌, ◌/◌, ◌%◌, ◌<◌, ◌≡◌, refl, subst, ap, ◌∙◌, inl, inr, Bool, true,
  false, not, ◌&&◌, ◌||◌, List, [], ◌∷◌, length, get_or, ltb, leb, eqb, if◌then◌else◌, arith,
  Bool-cases, ltb→lt,
}

pub record Date : Type 0 where
  pub year : ℕ
  pub month : ℕ
  pub day : ℕ

-- year::is_leap
unfoldable pub is_leap : ℕ → Bool
is_leap y = eqb (y % 4) 0 && (not (eqb (y % 100) 0) || eqb (y % 400) 0)

unfoldable pub days_in_year : ℕ → ℕ
unfolding is_leap
days_in_year y = if is_leap y then 366 else 365

unfoldable pub month_lengths : ℕ → List ℕ
unfolding is_leap
month_lengths y =
    31 ∷ (if is_leap y then 29 else 28) ∷ 31 ∷ 30 ∷ 31 ∷ 30 ∷ 31 ∷ 31 ∷ 30 ∷ 31 ∷ 30 ∷ 31 ∷ []

-- The days before a year of the first 400, and before a month of a year.
unfoldable pub year_start : ℕ → ℕ
year_start zero = 0
year_start (suc y) = year_start y + days_in_year y

unfoldable pub month_start : List ℕ → ℕ → ℕ
month_start lengths zero = 0
month_start [] (suc m) = 0
month_start (n ∷ lengths) (suc m) = n + month_start lengths m

-- date::ok
unfoldable pub is_valid : Date → Bool
is_valid d =
    leb 1 d.month
    && leb d.month 12
    && leb 1 d.day
    && leb d.day (get_or (month_lengths d.year) (d.month - 1) 0)

-- sys_days of a date
unfoldable pub days_of : Date → ℕ
unfolding year_start month_start
days_of d =
    d.year / 400 * 146097
    + year_start (d.year % 400)
    + month_start (month_lengths d.year) (d.month - 1)
    + (d.day - 1)

-- The year that a day falls in, from a year on, and the days of that year before it; so for the month.
unfoldable pub find_year : ℕ → ℕ → ℕ → ℕ × ℕ
find_year zero y n = (y, n)
find_year (suc fuel) y n = elim (ltb n (days_in_year y)) [
  | true ↦ (y, n)
  | false ↦ find_year fuel (y + 1) (n - days_in_year y)
]

unfoldable pub find_month : List ℕ → ℕ → ℕ → ℕ × ℕ
find_month [] m n = (m, n)
find_month (len ∷ lengths) m n = elim (ltb n len) [
  | true ↦ (m, n)
  | false ↦ find_month lengths (m + 1) (n - len)
]

unfoldable pub year_in_era : ℕ → ℕ × ℕ
unfolding find_year
year_in_era n = find_year 400 0 n

-- year_month_day of sys_days. Each 400 years have 146097 days.
unfoldable pub date_in : ℕ → ℕ × ℕ → Date
unfolding find_month
date_in era (y, n) =
    let (m, d) = find_month (month_lengths y) 1 n in
    record { year = era * 400 + y; month = m; day = d + 1 }

unfoldable pub date_of : ℕ → Date
date_of days = date_in (days / 146097) (year_in_era (days % 146097))

abbrev YearFound : ℕ → ℕ → ℕ × ℕ → Type 0
YearFound y n (y', r) = (year_start y' + r ≡ year_start y + n) × (r < days_in_year y') × (y' < 400)

era_length : year_start 400 ≡ 146097
unfolding year_start days_in_year is_leap
era_length = refl

year_next : (y : ℕ) → year_start (y + 1) ≡ year_start y + days_in_year y
unfolding year_start
year_next y = ground arith

find_year_lem :
    (fuel y n : ℕ) → y + fuel ≡ 400 → year_start y + n < 146097 → YearFound y n (find_year fuel y n)
unfolding find_year
find_year_lem zero y n whole inside = ground (arith, era_length, whole, inside)
find_year_lem (suc fuel) y n whole inside = elim (Bool-cases (ltb n (days_in_year y))) [
  | inl here ↦ rw (YearFound, find_year, here) (refl, ltb→lt n (days_in_year y) here, omega arith)
  | inr later ↦
      let r =
        find_year_lem fuel (y + 1) (n - days_in_year y) (omega arith)
          (ground (arith, later, inside, year_next y)) in
      rw (YearFound, find_year, later) (ground (arith, r, later, year_next y))
]

record MonthFound (lengths : List ℕ) (m n : ℕ) (found : ℕ × ℕ) : Type 0 where
  index : ℕ
  month : found.0 ≡ m + index
  start : month_start lengths index + found.1 ≡ n
  inside : found.1 < get_or lengths index 0
  below : index < length lengths

find_month_lem :
    (lengths : List ℕ) (m n : ℕ)
    → n < month_start lengths (length lengths)
    → MonthFound lengths m n (find_month lengths m n)
unfolding find_month month_start get_or
find_month_lem [] m n inside = elim (below_zero n inside) [ ]
  where
    below_zero : (k : ℕ) → ¬ (k < 0)
    below_zero k = omega arith
find_month_lem (len ∷ lengths) m n inside = elim (Bool-cases (ltb n len)) [
  | inl here ↦
      rw (find_month, here)
        (record {
          index = 0;
          month = omega arith;
          start = omega arith;
          inside = ltb→lt n len here;
          below = omega arith;
        })
  | inr later ↦
      let r = find_month_lem lengths (m + 1) (n - len) (ground (arith, later, inside)) in
      rw (find_month, later)
        (record {
          index = suc r.index;
          month = omega (arith, r.month);
          start = ground (arith, r.start, later);
          inside = r.inside;
          below = omega (arith, r.below);
        })
]

year_zero : year_start 0 ≡ 0
unfolding year_start
year_zero = refl

months_count : (y : ℕ) → length (month_lengths y) ≡ 12
unfolding month_lengths
months_count y = refl

year_in_era_lem : (n : ℕ) → n < 146097 → YearFound 0 n (year_in_era n)
unfolding year_in_era
year_in_era_lem n inside = find_year_lem 400 0 n refl (rw year_zero (omega arith))

months_in_era : (era y : ℕ) → month_lengths (era * 400 + y) ≡ month_lengths y
unfolding month_lengths is_leap
months_in_era era y =
    let four : (era * 400 + y) % 4 ≡ y % 4 = omega arith in
    let hundred : (era * 400 + y) % 100 ≡ y % 100 = omega arith in
    let cycle : (era * 400 + y) % 400 ≡ y % 400 = omega arith in rw (four, hundred, cycle) refl

months_of_year : (y : ℕ) → month_start (month_lengths y) (length (month_lengths y)) ≡ days_in_year y
unfolding month_start days_in_year month_lengths
months_of_year y = ground arith

-- What `date_of` gives is a date, of the days that it was given.
pub record DateFound (era days : ℕ) (d : Date) : Type 0 where
  pub same : days_of d ≡ era * 146097 + days
  pub valid : is_valid d ≡ true
  pub in_era : d.year < (era + 1) * 400

date_in_lem :
    (era y n : ℕ)
    → n < days_in_year y
    → y < 400
    → DateFound era (year_start y + n) (date_in era (y, n))
unfolding date_in days_of is_valid
date_in_lem era y n inside below =
    let m = find_month_lem (month_lengths y) 1 n (rw (months_of_year y) inside) in
    let year : (era * 400 + y) / 400 ≡ era = omega arith in
    let rest : (era * 400 + y) % 400 ≡ y = omega arith in
    let month : (find_month (month_lengths y) 1 n).0 - 1 ≡ m.index = omega (arith, m.month) in
    record {
      same = rw (months_in_era era y, year, rest, month) (omega (arith, m.start));
      valid =
          rw (months_in_era era y, month)
            (ground (arith, m.month, m.inside, m.below, months_count y));
      in_era = omega arith;
    }

pub date_of_lem : (days : ℕ) → DateFound (days / 146097) (days % 146097) (date_of days)
unfolding date_of
date_of_lem days =
    let y = year_in_era_lem (days % 146097) (omega arith) in
    let found = year_in_era (days % 146097) in
    subst (λ n. DateFound (days / 146097) n (date_of days))
      (y.0 ∙ ap (λ k. k + days % 146097) year_zero ∙ (omega arith))
      (date_in_lem (days / 146097) found.0 found.1 y.1 y.2)

-- Days to a date and back.
pub days_of-date_of : (days : ℕ) → days_of (date_of days) ≡ days
days_of-date_of days = omega (arith, (date_of_lem days).same)
