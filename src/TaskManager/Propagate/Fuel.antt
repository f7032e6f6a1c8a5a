-- ===== src/TaskManager/Propagate/Fuel.antt =====
-- The walk over the children ends: the fuel that `propagate_to_children` gives it is enough.
use ds_service.Base.{
  ℕ, zero, suc, ◌+◌, ◌≤◌, ◌≡◌, refl, inl, inr, String, true, false, List, [], ◌∷◌, length, get_or,
  set, arith, if◌then◌else◌, Bool-cases,
}
use ds_service.TaskManager.Propagate.{end_row, push_all, walk, edges}
use ds_service.TaskManager.Propagate.Cells.{live_in_range}
use ds_service.TaskManager.State.{TaskTable, state_at, children_at}
use ds_service.TaskState.{TaskState, undefined, is_live}

-- The edges that leave rows which can still run.
live_edges : List TaskState → List (List ℕ) → ℕ
live_edges [] rows = 0
live_edges (s ∷ states) [] = 0
live_edges (s ∷ states) (cs ∷ rows) = (if is_live s then length cs else 0) + live_edges states rows

live_edges-le :
    (states : List TaskState) (rows : List (List ℕ)) → live_edges states rows ≤ edges rows
unfolding live_edges edges
live_edges-le [] rows = omega arith
live_edges-le (s ∷ states) [] = omega arith
live_edges-le (s ∷ states) (cs ∷ rows) = ground (arith, live_edges-le states rows)

length-push_all : (pending cs : List ℕ) → length (push_all pending cs) ≡ length pending + length cs
unfolding push_all
length-push_all pending [] = omega arith
length-push_all pending (c ∷ cs) = omega (arith, length-push_all (c ∷ pending) cs)

-- A row that ends takes its edges off the count.
live_edges-set :
    (states : List TaskState) (rows : List (List ℕ)) (i : ℕ) (s : TaskState)
    → is_live s ≡ false
    → is_live (get_or states i undefined) ≡ true
    → live_edges (set states i s) rows + length (get_or rows i []) ≡ live_edges states rows
unfolding live_edges set get_or
live_edges-set [] rows i s dead live = ground (arith, live_in_range [] i live)
live_edges-set (x ∷ states) [] zero s dead live = omega arith
live_edges-set (x ∷ states) [] (suc i) s dead live = omega arith
live_edges-set (x ∷ states) (cs ∷ rows) zero s dead live = ground arith
live_edges-set (x ∷ states) (cs ∷ rows) (suc i) s dead live =
    omega (arith, live_edges-set states rows i s dead live)

module _ (s : TaskState) (output : String) (origin : ℕ) (dead : is_live s ≡ false) where
  walk_ends :
      (fuel : ℕ) (t : TaskTable) (pending : List ℕ)
      → length pending + live_edges t.state t.children ≤ fuel
      → (walk fuel s output origin t pending).1 ≡ []
  unfolding walk
  walk_ends zero t [] h = refl
  walk_ends zero t (i ∷ pending) h = absurd (omega arith)
  walk_ends (suc fuel) t [] h = refl
  walk_ends (suc fuel) t (i ∷ pending) h = elim (Bool-cases (is_live (state_at t i))) [
    | inl e ↦ rw e (
        walk_ends fuel (end_row t s output origin i) (push_all pending (children_at t i)) (
          omega (
            arith,
            length-push_all pending (children_at t i),
            live_edges-set t.state t.children i s dead e,
          )))
    | inr e ↦ rw e (walk_ends fuel t pending (omega arith))
  ]

  -- The walk ends: with the fuel that `propagate_to_children` gives it, nothing is pending at its end,
  -- whatever the graph, for a state in which a task has ended.
  pub propagate_ends :
      (t : TaskTable) (index : ℕ)
      → (walk
          (length (children_at t index) + edges t.children)
          s
          output
          origin
          t
          (push_all [] (children_at t index))).1
        ≡ []
  propagate_ends t index =
      walk_ends _ t (push_all [] (children_at t index))
        (omega (arith, length-push_all [] (children_at t index), live_edges-le t.state t.children))
