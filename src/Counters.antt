-- ===== src/Counters.antt =====
-- cpp/server/core/counters.cpp: the counters. A counter is a uint64_t, which wraps.
pub mod Sequence
use ds_service.Base.{ℕ, ◌+◌, ◌%◌, ◌^◌, none, some}
use ds_service.Error.{Result, ok}
use ds_service.Messages.{
  CounterGetNextValueRequest, CounterGetNextValueResponse, CounterGetCurrentValueRequest,
  CounterGetCurrentValueResponse, SearchKeyRequest, SearchKeyResponse,
}
use ds_service.SearchKey
use ds_service.ThirdParty.{ThirdParty, subscript}

module _ (P : ThirdParty) where
  pub record Counters : Type 0 where
    pub entries : P.HashMap ℕ

  pub get_next_value :
      Counters → CounterGetNextValueRequest → Result CounterGetNextValueResponse × Counters
  unfolding subscript
  get_next_value m request =
      let (counter, entries) = subscript P.maps 0 m.entries request.key in
      let next : ℕ = (counter + 1) % 2 ^ 64 in
      (ok (record { value = next }), record { entries = P.assign entries request.key next })

  unfoldable pub get_current_value :
      Counters → CounterGetCurrentValueRequest → Result CounterGetCurrentValueResponse
  get_current_value m request =
      ok (record { value = elim (P.find m.entries request.key) [ none ↦ 0 | some v ↦ v ] })

  unfoldable pub search_key : Counters → SearchKeyRequest → Result SearchKeyResponse
  search_key m request = SearchKey.search P (P.keys m.entries) request
