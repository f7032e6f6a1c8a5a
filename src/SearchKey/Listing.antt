-- ===== src/SearchKey/Listing.antt =====
-- Which keys a search lists.
use ds_service.Base.{
  ◌≡◌, refl, String, true, false, none, some, Bool-cases, inl, inr, List, [], ◌∷◌, arith, ◌==◌,
  eq_iff, if◌then◌else◌,
}
use ds_service.Counters
use ds_service.Error.{Result, ok, unexpected, invalid_argument}
use ds_service.JournalMap
use ds_service.Map
use ds_service.Messages.{SearchKeyRequest, SearchKeyResponse}
use ds_service.Mutexes
use ds_service.SearchKey.{matches, search}
use ds_service.TimeSeries
use ds_service.TimeSeries.{Chrono}
use ds_service.ThirdParty.{ThirdParty, count}

module _ (P : ThirdParty) where
  count-matches :
      (pattern : String) (keys : List String) (k : String)
      → count k (matches P pattern keys)
        ≡ (if P.re2.partial_match k pattern then count k keys else 0)
  unfolding matches count
  count-matches pattern [] k = ground arith
  count-matches pattern (j ∷ keys) k = elim (Bool-cases (j == k)) [
    | inl hit ↦
        let same_key = (eq_iff j k).0 hit in
        rw (same_key) (ground (arith, eq_iff k k, count-matches pattern keys k))
    | inr miss ↦ ground (arith, eq_iff j k, miss, count-matches pattern keys k)
  ]

  -- The answer to a search over the keys of a map: a list that holds each matching key of the map once
  -- and no other key, or the refusal of a pattern that does not compile.
  abbrev pub Lists :
      {V : Type 0} → P.HashMap V → SearchKeyRequest → Result SearchKeyResponse → Type 0
  Lists m request result = elim result [
    | ok response ↦
        (P.re2.ok request.pattern ≡ true)
        × ((k : String)
            → count k response.key ≡ (
                if P.re2.partial_match k request.pattern
                then elim (P.find m k) [ none ↦ 0 | some v ↦ 1 ]
                else 0))
    | unexpected e ↦ (P.re2.ok request.pattern ≡ false) × (e.code ≡ invalid_argument)
  ]

  pub search-Lists :
      {V : Type 0} (m : P.HashMap V) (keys : List String) (request : SearchKeyRequest)
      → ((k : String) → count k keys ≡ elim (P.find m k) [ none ↦ 0 | some v ↦ 1 ])
      → Lists m request (search P keys request)
  unfolding search
  search-Lists m keys request once = elim (Bool-cases (P.re2.ok request.pattern)) [
    | inl valid ↦
        rw (valid) (valid, λ k. ground (arith, count-matches request.pattern keys k, once k))
    | inr invalid ↦ rw (invalid) (invalid, refl)
  ]

  -- The searches of the key-value store, the journals, the time series, the mutexes and the counters
  -- answer so: with a list that holds each matching key of the map once and no other key, or with the
  -- refusal InvalidArgument of a pattern that does not compile.
  pub search_key-Lists :
      (C : Chrono) (map : Map.Map P) (journals : JournalMap.JournalMap P)
      (time_series : TimeSeries.TimeSeriesMap P C) (mutexes : Mutexes.Mutexes P)
      (counters : Counters.Counters P) (request : SearchKeyRequest)
      → Lists map.entries request (Map.search_key P map request)
        × Lists journals.entries request (JournalMap.search_key P journals request)
        × Lists time_series.entries request (TimeSeries.search_key P C time_series request)
        × Lists mutexes.entries request (Mutexes.search_key P mutexes request)
        × Lists counters.entries request (Counters.search_key P counters request)
  unfolding Map.search_key JournalMap.search_key TimeSeries.search_key Mutexes.search_key
      Counters.search_key
  search_key-Lists C map journals time_series mutexes counters request = (
    search-Lists map.entries (P.keys map.entries) request (P.count-keys map.entries),
    search-Lists journals.entries (P.keys journals.entries) request (P.count-keys journals.entries),
    search-Lists time_series.entries (P.keys time_series.entries) request
        (P.count-keys time_series.entries),
    search-Lists mutexes.entries (P.keys mutexes.entries) request (P.count-keys mutexes.entries),
    search-Lists counters.entries (P.keys counters.entries) request (P.count-keys counters.entries),
  )
