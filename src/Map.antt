-- ===== src/Map.antt =====
-- cpp/server/core/map.cpp: the key-value store.
pub mod Contents
use ds_service.Base.{String, none, some, [], ◌∷◌}
use ds_service.Error.{Result, ok, make_error, not_found}
use ds_service.Messages.{
  MapSetRequest, MapGetRequest, MapGetResponse, SearchKeyRequest, SearchKeyResponse,
}
use ds_service.SearchKey
use ds_service.ThirdParty.{ThirdParty}

module _ (P : ThirdParty) where
  pub record Map : Type 0 where
    pub entries : P.HashMap String

  pub set : Map → MapSetRequest → Result (Unit {0}) × Map
  set m request = (ok tt, record { entries = P.assign m.entries request.key request.value })

  pub get : Map → MapGetRequest → Result MapGetResponse
  get m request = elim (P.find m.entries request.key) [
    | none ↦ make_error not_found (P.format "Key {} not found." (request.key ∷ []))
    | some value ↦ ok (record { value = value })
  ]

  unfoldable pub search_key : Map → SearchKeyRequest → Result SearchKeyResponse
  search_key m request = SearchKey.search P (P.keys m.entries) request
