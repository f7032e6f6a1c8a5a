-- ===== src/Counters/Sequence.antt =====
-- The values that a counter hands out.
use ds_service.Base.{
  ℕ, ◌+◌, ◌%◌, ◌^◌, ◌<◌, ◌≡◌, String, List, [], ◌∷◌, arith, ◌==◌, eq_iff, if◌then◌else◌,
}
use ds_service.Counters.{Counters, get_next_value, get_current_value}
use ds_service.Error.{ok, unexpected}
use ds_service.ThirdParty.{ThirdParty, subscript, subscript-value, find-subscript, count}

module _ (P : ThirdParty) where
  -- what counter_get_current_value reports
  abbrev pub current : Counters P → String → ℕ
  current m key = elim (get_current_value P m (record { key = key })) [
    | ok r ↦ r.value
    | unexpected e ↦ 0
  ]

  -- what counter_get_next_value returns
  abbrev pub next : Counters P → String → ℕ
  next m key = elim (get_next_value P m (record { key = key })).0 [
    | ok r ↦ r.value
    | unexpected e ↦ 0
  ]

  abbrev pub stepped : Counters P → String → Counters P
  stepped m key = (get_next_value P m (record { key = key })).1

  -- counter_get_next_value returns the current value plus one, as a uint64_t. That is the new current
  -- value of its counter, and every other counter keeps its value.
  pub next_value_lem :
      (m : Counters P) (key other : String)
      → (next m key ≡ (current m key + 1) % 2 ^ 64)
        × (current (stepped m key) other ≡ (if key == other then next m key else current m other))
  unfolding get_next_value get_current_value
  next_value_lem m key other =
      let entered = (subscript P.maps 0 m.entries key).1 in
      let value : ℕ = ((subscript P.maps 0 m.entries key).0 + 1) % 2 ^ 64 in
      ground (
        arith,
        subscript-value P.maps 0 m.entries key,
        find-subscript P.maps 0 m.entries key other,
        P.find-assign entered key value other,
      )

  -- The manager after the calls for the keys of a list, in this order.
  pub run : Counters P → List String → Counters P
  run m [] = m
  run m (key ∷ keys) = run (stepped m key) keys

  -- However the calls of any number of clients interleave, no increment is lost: after the calls a
  -- counter stands at its old value plus the number of calls that named it, as a uint64_t. The
  -- condition is that its old value is one.
  pub current-run :
      (m : Counters P) (keys : List String) (key : String)
      → current m key < 2 ^ 64
      → current (run m keys) key ≡ (current m key + count key keys) % 2 ^ 64
  unfolding run count
  current-run m [] key h = omega arith
  current-run m (k ∷ keys) key h =
      let (value, kept) = next_value_lem m k key in
      ground (arith, value, kept, eq_iff k key, current-run (stepped m k) keys key (ground arith))
