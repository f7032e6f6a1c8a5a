-- ===== src/TaskManager/Reads/Ids.antt =====
-- Which ids task_search_id lists.
use ds_service.Base.{
  ℕ, zero, suc, ◌<◌, ◌≡◌, refl, String, Option, none, some, List, [], ◌∷◌, ◌==◌, eq_iff, length,
  get_or, arith, subst, inl, inr, Bool-cases, Option-cases,
}
use ds_service.Messages.{SearchKeyRequest}
use ds_service.SearchKey.Listing.{Lists, search-Lists}
use ds_service.TaskManager.Graph.{IsIndexed}
use ds_service.TaskManager.Reads.{search_id}
use ds_service.TaskManager.State.{TaskManager}
use ds_service.TaskManager.Steps.{Steps, initial, reachable-WellFormed}
use ds_service.ThirdParty.{ThirdParty, count}

-- The place of `k` in a list: `o` if the list has it there and nowhere else, and none if the list does
-- not have it.
record IsPlace (k : String) (ids : List String) (o : Option ℕ) : Type 0 where
  sound : (i : ℕ) → o ≡ some i → (i < length ids) × (get_or ids i "" ≡ k)
  complete : (i : ℕ) → i < length ids → get_or ids i "" ≡ k → o ≡ some i

-- the place in the tail
abbrev tail_place : Option ℕ → Option ℕ
tail_place none = none
tail_place (some zero) = none
tail_place (some (suc i)) = some i

tail-IsPlace :
    (k x : String) (ids : List String) (o : Option ℕ)
    → IsPlace k (x ∷ ids) o
    → IsPlace k ids (tail_place o)
unfolding get_or
tail-IsPlace k x ids none v = record {
  sound = λ i e. ground arith;
  complete = λ i h e. absurd (ground (arith, v.complete (suc i) (omega (arith, h)) e));
}
tail-IsPlace k x ids (some zero) v = record {
  sound = λ i e. ground arith;
  complete = λ i h e. absurd (ground (arith, v.complete (suc i) (omega (arith, h)) e));
}
tail-IsPlace k x ids (some (suc j)) v = record {
  sound = λ i e. ground (arith, v.sound (suc j) refl);
  complete = λ i h e. ground (arith, v.complete (suc i) (omega (arith, h)) e);
}

count-place :
    (k : String) (ids : List String) (o : Option ℕ)
    → IsPlace k ids o
    → count k ids ≡ elim o [ none ↦ 0 | some i ↦ 1 ]
unfolding count get_or
count-place k [] none v = refl
count-place k [] (some i) v = absurd (omega (arith, (v.sound i refl).0))
count-place k (x ∷ ids) o v =
    let rest = count-place k ids (tail_place o) (tail-IsPlace k x ids o v) in
    elim (Bool-cases (x == k)) [
      | inl hit ↦ ground (arith, rest, v.complete 0 (omega arith) ((eq_iff x k).0 hit))
      | inr miss ↦ elim (Option-cases o) [
        | inl nowhere ↦ ground (arith, rest)
        | inr (i, at) ↦ ground (arith, rest, v.sound i at, (eq_iff x k).1)
      ]
    ]

module _ (P : ThirdParty) where
  indexed-IsPlace :
      (m : TaskManager P) (k : String)
      → IsIndexed P m
      → IsPlace k m.tasks.task_id (P.find m.task_index k)
  indexed-IsPlace m k v = record {
    sound = v.sound k;
    complete = λ i h e. subst (λ id. P.find m.task_index id ≡ some i) e (v.complete i h);
  }

  -- In every state that the manager reaches, task_search_id answers with a list that holds each id of a
  -- task that matches the pattern once and nothing else, or, where the pattern does not compile, with the
  -- refusal InvalidArgument.
  pub search_id-Lists :
      (m : TaskManager P) (request : SearchKeyRequest)
      → Steps P (initial P) m
      → Lists P m.task_index request (search_id P m request)
  unfolding search_id
  search_id-Lists m request reached = search-Lists P m.task_index m.tasks.task_id request (λ k.
      count-place k m.tasks.task_id (P.find m.task_index k)
        (indexed-IsPlace m k (reachable-WellFormed P m reached).indexed))
