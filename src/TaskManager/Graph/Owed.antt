-- ===== src/TaskManager/Graph/Owed.antt =====
-- Occurrences in a list of children, and the number of edges to a row from rows not finished.
use ds_service.Base.{
  ℕ, zero, suc, ◌+◌, ◌<◌, ◌≤◌, ◌≡◌, refl, List, [], ◌∷◌, ◌++◌, length, get_or, set, push_back, eqb,
  arith, if◌then◌else◌,
}
use ds_service.TaskManager.Propagate.{push_all}
use ds_service.TaskState.{TaskState, undefined, finished, same}

unfoldable pub occ : ℕ → List ℕ → ℕ
occ c [] = 0
occ c (x ∷ xs) = if eqb x c then suc (occ c xs) else occ c xs

pub occ-append : (c : ℕ) (xs ys : List ℕ) → occ c (xs ++ ys) ≡ occ c xs + occ c ys
unfolding occ
occ-append c [] ys = omega arith
occ-append c (x ∷ xs) ys = ground (arith, occ-append c xs ys)

pub occ-push_back :
    (c : ℕ) (xs : List ℕ) (x : ℕ)
    → occ c (push_back xs x) ≡ (if eqb x c then suc (occ c xs) else occ c xs)
unfolding occ
occ-push_back c xs x = ground (arith, occ-append c xs (x ∷ []))

pub occ-push_all :
    (c : ℕ) (pending cs : List ℕ) → occ c (push_all pending cs) ≡ occ c pending + occ c cs
unfolding occ push_all
occ-push_all c pending [] = omega arith
occ-push_all c pending (x ∷ cs) = ground (arith, occ-push_all c (x ∷ pending) cs)

-- What one row contributes.
unfoldable pub share : ℕ → TaskState → List ℕ → ℕ
share c s cs = if same s finished then 0 else occ c cs

unfoldable pub owed : List TaskState → List (List ℕ) → ℕ → ℕ
owed [] rows c = 0
owed (s ∷ states) [] c = 0
owed (s ∷ states) (cs ∷ rows) c = share c s cs + owed states rows c

module _ (c : ℕ) where
  pub owed-set-state :
      (states : List TaskState) (rows : List (List ℕ)) (i : ℕ) (s : TaskState)
      → i < length states
      → length rows ≡ length states
      → owed (set states i s) rows c + share c (get_or states i undefined) (get_or rows i [])
        ≡ owed states rows c + share c s (get_or rows i [])
  unfolding owed set get_or
  owed-set-state [] rows i s h e = elim h [ ]
  owed-set-state (x ∷ states) [] i s h e = absurd (omega arith)
  owed-set-state (x ∷ states) (cs ∷ rows) zero s h e = omega arith
  owed-set-state (x ∷ states) (cs ∷ rows) (suc i) s h e =
      omega (arith, owed-set-state states rows i s (omega arith) (omega arith))

  pub owed-set-children :
      (states : List TaskState) (rows : List (List ℕ)) (i : ℕ) (cs : List ℕ)
      → i < length states
      → length rows ≡ length states
      → owed states (set rows i cs) c + share c (get_or states i undefined) (get_or rows i [])
        ≡ owed states rows c + share c (get_or states i undefined) cs
  unfolding owed set get_or
  owed-set-children [] rows i cs h e = elim h [ ]
  owed-set-children (x ∷ states) [] i cs h e = absurd (omega arith)
  owed-set-children (x ∷ states) (ds ∷ rows) zero cs h e = omega arith
  owed-set-children (x ∷ states) (ds ∷ rows) (suc i) cs h e =
      omega (arith, owed-set-children states rows i cs (omega arith) (omega arith))

  pub owed-push_back :
      (states : List TaskState) (rows : List (List ℕ)) (s : TaskState)
      → length rows ≡ length states
      → owed (push_back states s) (push_back rows []) c ≡ owed states rows c
  unfolding owed share occ
  owed-push_back [] [] s e = ground arith
  owed-push_back [] (cs ∷ rows) s e = absurd (omega arith)
  owed-push_back (x ∷ states) [] s e = absurd (omega arith)
  owed-push_back (x ∷ states) (cs ∷ rows) s e =
      omega (arith, owed-push_back states rows s (omega arith))

  -- A row not finished owes at least what stands among its children.
  pub share-le-owed :
      (states : List TaskState) (rows : List (List ℕ)) (i : ℕ)
      → length rows ≡ length states
      → share c (get_or states i undefined) (get_or rows i []) ≤ owed states rows c
  unfolding owed share occ get_or
  share-le-owed [] [] i e = ground arith
  share-le-owed [] (cs ∷ rows) i e = absurd (omega arith)
  share-le-owed (x ∷ states) [] i e = absurd (omega arith)
  share-le-owed (x ∷ states) (cs ∷ rows) zero e = ground arith
  share-le-owed (x ∷ states) (cs ∷ rows) (suc i) e =
      ground (arith, share-le-owed states rows i (omega arith))

-- The count depends on which rows have finished, and on no other difference of state.
pub owed-cong :
    (c : ℕ) (states others : List TaskState) (rows : List (List ℕ))
    → length others ≡ length states
    → ((i : ℕ)
        → same (get_or others i undefined) finished ≡ same (get_or states i undefined) finished)
    → owed others rows c ≡ owed states rows c
unfolding owed share get_or
owed-cong c [] [] rows e h = refl
owed-cong c [] (y ∷ others) rows e h = absurd (omega arith)
owed-cong c (x ∷ states) [] rows e h = absurd (omega arith)
owed-cong c (x ∷ states) (y ∷ others) [] e h = refl
owed-cong c (x ∷ states) (y ∷ others) (cs ∷ rows) e h =
    ground (arith, h 0, owed-cong c states others rows (omega arith) (λ i. h (suc i)))

-- A row that stands among nobody's children is owed nothing.
pub owed-zero :
    (c : ℕ) (states : List TaskState) (rows : List (List ℕ))
    → ((p : ℕ) → occ c (get_or rows p []) ≡ 0)
    → owed states rows c ≡ 0
unfolding owed share get_or
owed-zero c [] rows h = refl
owed-zero c (x ∷ states) [] h = refl
owed-zero c (x ∷ states) (cs ∷ rows) h =
    ground (arith, h 0, owed-zero c states rows (λ p. h (suc p)))
