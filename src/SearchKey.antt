-- ===== src/SearchKey.antt =====
-- The search that every structure serves over its own keys: map_search_key, journal_search_key,
-- time_series_search_key, mutex_search_key, counter_search_key and task_search_id.
pub mod Listing
use ds_service.Base.{String, List, [], ◌∷◌, if◌then◌else◌}
use ds_service.Error.{Result, ok, make_error, invalid_argument}
use ds_service.Messages.{SearchKeyRequest, SearchKeyResponse}
use ds_service.ThirdParty.{ThirdParty}

module _ (P : ThirdParty) where
  -- the loop over the keys, in the order in which the structure yields them
  pub matches : String → List String → List String
  matches pattern [] = []
  matches pattern (key ∷ keys) =
      let rest = matches pattern keys in
      if P.re2.partial_match key pattern then key ∷ rest else rest

  pub search : List String → SearchKeyRequest → Result SearchKeyResponse
  unfolding matches
  search keys request =
      if P.re2.ok request.pattern
      then ok (record { key = matches request.pattern keys })
      else make_error invalid_argument
          (P.format "Invalid regular expression: {}" (P.re2.error request.pattern ∷ []))
