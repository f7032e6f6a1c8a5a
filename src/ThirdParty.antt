-- ===== src/ThirdParty.antt =====
-- The third-party code that the server core calls, as an interface: phmap's hash map, RE2 and fmt.
use ds_service.Base.{
  ℕ, String, ◌≡◌, Bool, Option, none, some, List, [], ◌∷◌, ◌==◌, ◌+◌, arith, eq_iff, if◌then◌else◌,
}

-- How often a key stands in a list of keys.
unfoldable pub count : String → List String → ℕ
count k [] = 0
count k (j ∷ js) = (if j == k then 1 else 0) + count k js

-- phmap::parallel_flat_hash_map<std::string, V>, whose iteration order is not specified.
pub record HashMaps : Type 1 where
  pub HashMap : Type 0 → Type 0
  pub empty : {V : Type 0} → HashMap V
  pub find : {V : Type 0} → HashMap V → String → Option V
  pub assign : {V : Type 0} → HashMap V → String → V → HashMap V
  pub keys : {V : Type 0} → HashMap V → List String
  pub find-empty : {V : Type 0} (k : String) → find (empty {V = V}) k ≡ none
  pub find-assign :
      {V : Type 0} (m : HashMap V) (k : String) (v : V) (j : String)
      → find (assign m k v) j ≡ (if k == j then some v else find m j)
  pub count-keys :
      {V : Type 0} (m : HashMap V) (k : String)
      → count k (keys m) ≡ elim (find m k) [ none ↦ 0 | some v ↦ 1 ]

-- RE2: whether a pattern compiles, the complaint if not, and whether it matches a part of a text.
pub record Regexes : Type 0 where
  pub ok : String → Bool
  pub error : String → String
  pub partial_match : String → String → Bool

pub record ThirdParty : Type 1 where
  pub maps : HashMaps
  pub open maps use *
  pub re2 : Regexes
  -- fmt::format with arguments that are texts
  pub format : String → List String → String

-- `map[key]`: the value under the key, which is entered with the value `initial` where it is missing.
module _ (H : HashMaps) {V : Type 0} where
  unfoldable pub subscript : V → H.HashMap V → String → V × H.HashMap V
  subscript initial m key = elim (H.find m key) [
    | none ↦ (initial, H.assign m key initial)
    | some v ↦ (v, m)
  ]

  pub subscript-value :
      (initial : V) (m : H.HashMap V) (key : String)
      → (subscript initial m key).0 ≡ elim (H.find m key) [ none ↦ initial | some v ↦ v ]
  unfolding subscript
  subscript-value initial m key = ground arith

  pub find-subscript :
      (initial : V) (m : H.HashMap V) (key j : String)
      → H.find (subscript initial m key).1 j
        ≡ (if key == j then some (subscript initial m key).0 else H.find m j)
  unfolding subscript
  find-subscript initial m key j = ground (arith, eq_iff key j, H.find-assign m key initial j)
