-- ===== src/Tests/Library.antt =====
-- A value of the third-party interface: association lists for the hash maps, a regular expression that
-- is a literal text, and a format that only returns its template.
use ds_service.Base.{
  ◌≡◌, refl, String, not, Option, none, some, List, [], ◌∷◌, ◌==◌, eq_iff, arith, if◌then◌else◌,
}
use ds_service.ThirdParty.{HashMaps, ThirdParty, count}

abbrev without : String → List String → List String
without k [] = []
without k (j ∷ js) = let rest = without k js in if k == j then rest else j ∷ rest

count-without :
    (k j : String) (js : List String) → count j (without k js) ≡ (if k == j then 0 else count j js)
unfolding count
count-without k j [] = ground arith
count-without k j (i ∷ js) =
    ground (arith, eq_iff k j, eq_iff k i, eq_iff i j, count-without k j js)

module _ {V : Type 0} where
  abbrev lookup : List (String × V) → String → Option V
  lookup [] k = none
  lookup ((j, v) ∷ m) k = if j == k then some v else lookup m k

  abbrev put : List (String × V) → String → V → List (String × V)
  put [] k v = (k, v) ∷ []
  put ((j, w) ∷ m) k v = if j == k then (k, v) ∷ m else (j, w) ∷ put m k v

  -- each key once
  abbrev names : List (String × V) → List String
  names [] = []
  names ((j, v) ∷ m) = j ∷ without j (names m)

  pub lookup-put :
      (m : List (String × V)) (k : String) (v : V) (j : String)
      → lookup (put m k v) j ≡ (if k == j then some v else lookup m j)
  lookup-put [] k v j = refl
  lookup-put ((i, w) ∷ m) k v j =
      ground (arith, eq_iff k j, eq_iff i k, eq_iff i j, lookup-put m k v j)

  pub count-names :
      (m : List (String × V)) (k : String)
      → count k (names m) ≡ elim (lookup m k) [ none ↦ 0 | some v ↦ 1 ]
  unfolding count
  count-names [] k = refl
  count-names ((j, v) ∷ m) k =
      ground (arith, eq_iff j k, count-without j k (names m), count-names m k)

abbrev pub association_lists : HashMaps
association_lists = record {
  HashMap = λ V. List (String × V);
  empty = [];
  find = lookup;
  assign = put;
  keys = names;
  find-empty = λ k. refl;
  find-assign = lookup-put;
  count-keys = count-names;
}

abbrev pub library : ThirdParty
library = record {
  maps = association_lists;
  re2 = record {
    ok = λ pattern. not (pattern == "(");
    error = λ _. "missing )";
    partial_match = λ text pattern. text == pattern;
  };
  format = λ template arguments. template;
}
