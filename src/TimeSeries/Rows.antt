-- ===== src/TimeSeries/Rows.antt =====
-- The points of a series, and what the loop of time_series_get shows of them.
use ds_service.Base.{
  ℕ, zero, suc, ◌+◌, ◌≡◌, refl, ap, Bool, true, not, ◌&&◌, ◌||◌, Option, none, some, List, [], ◌∷◌,
  length, get_or, push_back, arith, if◌then◌else◌,
}
use ds_service.Base.Int.{ℤ, ltb_ℤ, same_ℤ}
use ds_service.Double.{Double}
use ds_service.Messages.{TimeSeriesDataPoint, TimeSeriesGetRequest}
use ds_service.TimeSeries.{Chrono, TimeSeries, before, past, format_iso8601_utc, points_from}

pub record Point : Type 0 where
  pub value : Double
  pub time : ℤ
  pub step : ℤ

-- The points of three columns.
unfoldable pub rows : List Double → List ℤ → List ℤ → List Point
rows (v ∷ vs) (t ∷ ts) (s ∷ ss) = record { value = v; time = t; step = s } ∷ rows vs ts ss
rows _ _ _ = []

abbrev pub IsAligned : TimeSeries → Type 0
IsAligned series =
    (length series.time ≡ length series.value) × (length series.step ≡ length series.value)

pub rows-push_back :
    (vs : List Double) (ts ss : List ℤ) (v : Double) (t s : ℤ)
    → length ts ≡ length vs
    → length ss ≡ length vs
    → rows (push_back vs v) (push_back ts t) (push_back ss s)
      ≡ push_back (rows vs ts ss) (record { value = v; time = t; step = s })
unfolding rows
rows-push_back [] [] [] v t s h k = refl
rows-push_back [] [] (y ∷ ss) v t s h k = absurd (omega arith)
rows-push_back [] (x ∷ ts) ss v t s h k = absurd (omega arith)
rows-push_back (w ∷ vs) [] ss v t s h k = absurd (omega arith)
rows-push_back (w ∷ vs) (x ∷ ts) [] v t s h k = absurd (omega arith)
rows-push_back (w ∷ vs) (x ∷ ts) (y ∷ ss) v t s h k =
    ap (◌∷◌ (record { value = w; time = x; step = y }))
      (rows-push_back vs ts ss v t s (omega arith) (omega arith))

-- start ≤ x, or no start is given
abbrev pub at_least : Option ℤ → ℤ → Bool
at_least none x = true
at_least (some start) x = ltb_ℤ start x || same_ℤ start x

-- x < end, or no end is given
abbrev pub below : Option ℤ → ℤ → Bool
below none x = true
below (some end) x = ltb_ℤ x end

before-at_least : (start : Option ℤ) (x : ℤ) → before start x ≡ not (at_least start x)
unfolding before ltb_ℤ same_ℤ
before-at_least start x = ground arith

past-below : (end : Option ℤ) (x : ℤ) → past end x ≡ not (below end x)
unfolding past
past-below end x = ground arith

module _ (C : Chrono) (start_time end_time : Option ℤ) (request : TimeSeriesGetRequest) where
  -- A point is in the range from the start, inclusive, to the end, exclusive, in time and in step.
  abbrev pub in_range : Point → Bool
  in_range p =
      (at_least start_time p.time && below end_time p.time)
      && (at_least request.start_step p.step && below request.end_step p.step)

  abbrev pub shown : List Point → List TimeSeriesDataPoint
  shown [] = []
  shown (p ∷ ps) =
      let rest = shown ps in
      if in_range p
      then record { value = p.value; datetime = format_iso8601_utc C p.time; step = p.step } ∷ rest
      else rest

  points_from-skip :
      (v : Double) (vs : List Double) (t : ℤ) (ts : List ℤ) (s : ℤ) (ss : List ℤ) (i n : ℕ)
      → points_from C
          (record { value = v ∷ vs; time = t ∷ ts; step = s ∷ ss })
          start_time
          end_time
          request
          (i + 1)
          n
        ≡ points_from C
            (record { value = vs; time = ts; step = ss })
            start_time
            end_time
            request
            i
            n
  unfolding points_from get_or
  points_from-skip v vs t ts s ss i zero = refl
  points_from-skip v vs t ts s ss i (suc n) =
      ground (arith, points_from-skip v vs t ts s ss (i + 1) n)

  -- The loop of time_series_get shows the points in range.
  pub points_from-rows :
      (vs : List Double) (ts ss : List ℤ)
      → length ts ≡ length vs
      → length ss ≡ length vs
      → points_from C
          (record { value = vs; time = ts; step = ss })
          start_time
          end_time
          request
          0
          (length vs)
        ≡ shown (rows vs ts ss)
  unfolding points_from rows get_or
  points_from-rows [] [] [] h k = refl
  points_from-rows [] [] (y ∷ ss) h k = absurd (omega arith)
  points_from-rows [] (x ∷ ts) ss h k = absurd (omega arith)
  points_from-rows (w ∷ vs) [] ss h k = absurd (omega arith)
  points_from-rows (w ∷ vs) (x ∷ ts) [] h k = absurd (omega arith)
  points_from-rows (w ∷ vs) (x ∷ ts) (y ∷ ss) h k = ground (
    arith,
    points_from-skip w vs x ts y ss 0 (length vs),
    points_from-rows vs ts ss (omega arith) (omega arith),
    before-at_least start_time x,
    past-below end_time x,
    before-at_least request.start_step y,
    past-below request.end_step y,
  )
