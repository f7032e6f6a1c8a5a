-- ===== src/JournalMap.antt =====
-- cpp/server/core/journal-map.cpp: the journals.
pub mod Order
use ds_service.Base.{
  ℕ, zero, suc, ◌+◌, ◌-◌, min, String, none, some, List, [], ◌∷◌, length, get_or, push_back,
}
use ds_service.Error.{Result, ok}
use ds_service.Messages.{
  JournalSizeRequest, JournalSizeResponse, JournalReadRequest, JournalReadResponse,
  JournalAppendRequest, SearchKeyRequest, SearchKeyResponse,
}
use ds_service.SearchKey
use ds_service.ThirdParty.{ThirdParty, subscript}

-- the loop from `index` over the next `rounds` entries
unfoldable pub read_from : List String → ℕ → ℕ → List String
unfolding get_or
read_from journal index zero = []
read_from journal index (suc rounds) =
    get_or journal index "" ∷ read_from journal (index + 1) rounds

module _ (P : ThirdParty) where
  pub record JournalMap : Type 0 where
    pub entries : P.HashMap (List String)

  pub size : JournalMap → JournalSizeRequest → Result JournalSizeResponse
  size m request = elim (P.find m.entries request.key) [
    | none ↦ ok (record { size = 0 })
    | some journal ↦ ok (record { size = length journal })
  ]

  -- `index < end` holds for end - start rounds, and for none if end ≤ start.
  pub read : JournalMap → JournalReadRequest → Result JournalReadResponse
  unfolding read_from
  read m request = elim (P.find m.entries request.key) [
    | none ↦ ok (record { entry = [] })
    | some journal ↦
        let start = min request.start (length journal) in
        let end = min request.end (length journal) in
        ok (record { entry = read_from journal start (end - start) })
  ]

  pub append : JournalMap → JournalAppendRequest → Result (Unit {0}) × JournalMap
  unfolding subscript
  append m request =
      let (journal, entries) = subscript P.maps [] m.entries request.key in
      (ok tt, record { entries = P.assign entries request.key (push_back journal request.value) })

  unfoldable pub search_key : JournalMap → SearchKeyRequest → Result SearchKeyResponse
  search_key m request = SearchKey.search P (P.keys m.entries) request
