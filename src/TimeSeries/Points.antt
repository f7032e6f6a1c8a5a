-- ===== src/TimeSeries/Points.antt =====
-- What time_series_get reports after time_series_append.
use mathlib.Core.List.{append-nil, append_assoc}
use ds_service.Base.{
  ◌≡◌, refl, sym, ap, ◌∙◌, subst, String, Option, none, some, List, [], ◌∷◌, ◌++◌, ◌==◌, eq_iff,
  length-push_back, push_back, arith, if◌then◌else◌, Option-cases, inl, inr, Bool-cases,
}
use ds_service.Base.Int.{ℤ}
use ds_service.Error.{ok}
use ds_service.Messages.{TimeSeriesAppendRequest, TimeSeriesGetRequest}
use ds_service.ThirdParty.{ThirdParty, subscript, subscript-value, find-subscript}
use ds_service.TimeSeries.{
  Chrono, TimeSeries, TimeSeriesMap, empty_series, parse_iso8601_utc, parse_bound, append, get,
}
use ds_service.TimeSeries.Rows.{Point, rows, IsAligned, shown, rows-push_back, points_from-rows}

module _ (P : ThirdParty) (C : Chrono) where
  abbrev pub series_at : TimeSeriesMap P C → String → TimeSeries
  series_at m key = elim (P.find m.entries key) [ none ↦ empty_series | some s ↦ s ]

  -- Every series has a time and a step for each value.
  abbrev pub AllAligned : TimeSeriesMap P C → Type 0
  AllAligned m = (key : String) → IsAligned (series_at m key)

  abbrev pub points : TimeSeriesMap P C → String → List Point
  points m key = rows (series_at m key).value (series_at m key).time (series_at m key).step

  -- The point that an append records, if its datetime parses.
  abbrev pub recorded : TimeSeriesAppendRequest → List Point
  recorded request = elim (parse_iso8601_utc C request.datetime) [
    | none ↦ []
    | some tp ↦ record { value = request.value; time = tp; step = request.step } ∷ []
  ]

  longer : TimeSeries → TimeSeriesAppendRequest → ℤ → TimeSeries
  longer series request tp = record {
    value = push_back series.value request.value;
    time = push_back series.time tp;
    step = push_back series.step request.step;
  }

  series_at-append :
      (m : TimeSeriesMap P C) (request : TimeSeriesAppendRequest) (key : String)
      → series_at (append P C m request).1 key ≡ elim (parse_iso8601_utc C request.datetime) [
        | none ↦ series_at m key
        | some tp ↦
            if request.key == key then longer (series_at m key) request tp else series_at m key
      ]
  unfolding append longer
  series_at-append m request key = elim (Option-cases (parse_iso8601_utc C request.datetime)) [
    | inl e ↦ rw (e, append) refl
    | inr (tp, e) ↦
        let entered = (subscript P.maps empty_series m.entries request.key).1 in
        let series = longer (subscript P.maps empty_series m.entries request.key).0 request tp in
        rw (e, append)
          (ground (
            arith,
            subscript-value P.maps empty_series m.entries request.key,
            find-subscript P.maps empty_series m.entries request.key key,
            P.find-assign entered request.key series key,
            eq_iff request.key key,
          ))
  ]

  append-AllAligned :
      (m : TimeSeriesMap P C) (request : TimeSeriesAppendRequest)
      → AllAligned m
      → AllAligned (append P C m request).1
  unfolding longer
  append-AllAligned m request a key =
      subst IsAligned (sym (series_at-append m request key))
        (elim (Option-cases (parse_iso8601_utc C request.datetime)) [
          | inl e ↦ rw e (a key)
          | inr (tp, e) ↦ rw e (elim (Bool-cases (request.key == key)) [
            | inr miss ↦ rw miss (a key)
            | inl hit ↦ rw hit (
              omega (
                arith,
                (a key).0,
                length-push_back (series_at m key).value request.value,
                length-push_back (series_at m key).time tp,
              ),
              omega (
                arith,
                (a key).1,
                length-push_back (series_at m key).value request.value,
                length-push_back (series_at m key).step request.step,
              ),
            )
          ])
        ])

  points-append :
      (m : TimeSeriesMap P C) (request : TimeSeriesAppendRequest) (key : String)
      → AllAligned m
      → points (append P C m request).1 key
        ≡ points m key ++ (if request.key == key then recorded request else [])
  unfolding longer
  points-append m request key a =
      ap (λ (s : TimeSeries). rows s.value s.time s.step) (series_at-append m request key)
      ∙ elim (Option-cases (parse_iso8601_utc C request.datetime)) [
        | inl e ↦ elim (Bool-cases (request.key == key)) [
          | inr miss ↦ rw (e, miss) (sym (append-nil (points m key)))
          | inl hit ↦
              let nothing : recorded request ≡ [] = ground (arith, e) in
              rw (e, hit, nothing) (sym (append-nil (points m key)))
        ]
        | inr (tp, e) ↦ elim (Bool-cases (request.key == key)) [
          | inr miss ↦ rw (e, miss) (sym (append-nil (points m key)))
          | inl hit ↦
              let one : recorded request
                  ≡ record { value = request.value; time = tp; step = request.step } ∷ [] =
                ground (arith, e) in
              rw (e, hit, one)
                (rows-push_back _ _ _ request.value tp request.step (a key).0 (a key).1)
        ]
      ]

  -- The structure after a list of appends, in this order, and the points that they record under a key.
  pub run : TimeSeriesMap P C → List TimeSeriesAppendRequest → TimeSeriesMap P C
  run m [] = m
  run m (request ∷ requests) = run (append P C m request).1 requests

  pub all_recorded : List TimeSeriesAppendRequest → String → List Point
  all_recorded [] key = []
  all_recorded (request ∷ requests) key =
      (if request.key == key then recorded request else []) ++ all_recorded requests key

  points-run :
      (m : TimeSeriesMap P C) (requests : List TimeSeriesAppendRequest) (key : String)
      → AllAligned m
      → (points (run m requests) key ≡ points m key ++ all_recorded requests key)
        × AllAligned (run m requests)
  unfolding run all_recorded
  points-run m [] key a = (sym (append-nil (points m key)), a)
  points-run m (request ∷ requests) key a =
      let (split, aligned) =
        points-run (append P C m request).1 requests key (append-AllAligned m request a) in
      (
        split
            ∙ ap (λ ps. ps ++ all_recorded requests key) (points-append m request key a)
            ∙ append_assoc (points m key) (if request.key == key then recorded request else [])
                (all_recorded requests key),
        aligned,
      )

  get-points :
      (m : TimeSeriesMap P C) (request : TimeSeriesGetRequest) (start_time end_time : Option ℤ)
      → AllAligned m
      → parse_bound C
          (λ s. P.format "Invalid ISO 8601 UTC start_time: {}" (s ∷ []))
          request.start_time
        ≡ ok start_time
      → parse_bound C (λ s. P.format "Invalid ISO 8601 UTC end_time: {}" (s ∷ [])) request.end_time
        ≡ ok end_time
      → get P C m request
        ≡ ok (record { point = shown C start_time end_time request (points m request.key) })
  unfolding get rows
  get-points m request start_time end_time a s e =
      elim (Option-cases (P.find m.entries request.key)) [
        | inl f ↦ ground (arith, s, e, f)
        | inr (series, f) ↦
            let shape : series_at m request.key ≡ series = ground (arith, f) in
            let (times, steps) = subst IsAligned shape (a request.key) in
            ground (
              arith,
              s,
              e,
              f,
              points_from-rows C start_time end_time request series.value series.time series.step
                  times steps,
            )
      ]

  -- After any appends by any clients, time_series_get returns those points under the key that lie in
  -- the range of the request, from its start, inclusive, to its end, exclusive, in time and in step:
  -- first the points from before, then those of the appends in their order, each with its time
  -- formatted. The conditions are that both time bounds parse or are left out, and that the three
  -- columns of every series were of one length before.
  pub get-run :
      (m : TimeSeriesMap P C) (requests : List TimeSeriesAppendRequest)
      (request : TimeSeriesGetRequest) (start_time end_time : Option ℤ)
      → AllAligned m
      → parse_bound C
          (λ s. P.format "Invalid ISO 8601 UTC start_time: {}" (s ∷ []))
          request.start_time
        ≡ ok start_time
      → parse_bound C (λ s. P.format "Invalid ISO 8601 UTC end_time: {}" (s ∷ [])) request.end_time
        ≡ ok end_time
      → get P C (run m requests) request
        ≡ ok (record {
          point =
              shown C start_time end_time request
                (points m request.key ++ all_recorded requests request.key);
        })
  get-run m requests request start_time end_time a s e =
      let (split, aligned) = points-run m requests request.key a in
      get-points (run m requests) request start_time end_time aligned s e
      ∙ ap (λ ps. ok (record { point = shown C start_time end_time request ps })) split
