-- ===== src/TaskManager/Propagate/Outcomes.antt =====
-- What TaskManager::propagate_to_children does, in one record, and that it does it.
use ds_service.Base.{
  ℕ, ◌+◌, ◌<◌, ◌≡◌, ◌⊎◌, inl, inr, Bool-cases, String, true, false, [], length, arith,
}
use ds_service.TaskManager.Graph.Owed.{occ, occ-push_all}
use ds_service.TaskManager.Propagate.{push_all, edges, terminal_output, propagate_to_children}
use ds_service.TaskManager.Propagate.Cells.{
  SameGraph, IsKept, IsEnded, Outcome, walk-SameGraph, walk-Outcome,
}
use ds_service.TaskManager.Propagate.Fuel.{propagate_ends}
use ds_service.TaskManager.Propagate.Reach.{
  Below, child, deeper, walk_pending, walk_children, walk_within,
}
use ds_service.TaskManager.State.{TaskTable, IsAligned, state_at, children_at}
use ds_service.TaskState.{TaskState, is_live}
use ds_service.ThirdParty.{ThirdParty}

pub record Propagated (s : TaskState) (text : String) (origin index : ℕ) (t u : TaskTable)
    : Type 0 where
  pub same_graph : SameGraph t u
  pub outcome : (j : ℕ) → Outcome s text origin t u j
  pub below : (j : ℕ) → Below t index j → is_live (state_at u j) ≡ false
  pub within :
      (j : ℕ) → is_live (state_at t j) ≡ true → is_live (state_at u j) ≡ false → Below t index j
  pub children :
      (p c : ℕ)
      → is_live (state_at t p) ≡ true
      → is_live (state_at u p) ≡ false
      → 0 < occ c (children_at t p)
      → is_live (state_at u c) ≡ false

module _ (P : ThirdParty) (t : TaskTable) (index : ℕ) (s : TaskState) (origin : ℕ)
    (dead : is_live s ≡ false) where
  abbrev fuel : ℕ
  fuel = length (children_at t index) + edges t.children

  abbrev text : String
  text = terminal_output P t s origin

  below_dead :
      (j : ℕ)
      → Below t index j
      → is_live (state_at (propagate_to_children P t index s origin) j) ≡ false
  unfolding propagate_to_children
  below_dead j (child _ h) =
      walk_pending s text origin dead fuel t (push_all [] (children_at t index)) j
        (propagate_ends s text origin dead t index)
        (omega (arith, occ-push_all j [] (children_at t index)))
  below_dead j (deeper p _ b live h) =
      walk_children s text origin dead fuel t (push_all [] (children_at t index)) p j
        (propagate_ends s text origin dead t index) live (below_dead p b) h

  pub propagate-Propagated :
      IsAligned t → Propagated s text origin index t (propagate_to_children P t index s origin)
  unfolding propagate_to_children below_dead occ
  propagate-Propagated a = record {
    same_graph = walk-SameGraph s text origin fuel t (push_all [] (children_at t index));
    outcome = λ j. walk-Outcome s text origin fuel t (push_all [] (children_at t index)) j dead a;
    below = below_dead;
    within = λ j.
        walk_within s text origin dead (Below t index) fuel t (push_all [] (children_at t index))
          (λ c h. child c (omega (arith, occ-push_all c [] (children_at t index))))
          (λ p c r l h. deeper p c r l h) j;
    children = λ p c.
        walk_children s text origin dead fuel t (push_all [] (children_at t index)) p c
          (propagate_ends s text origin dead t index);
  }

  -- The walk, which the end of a task starts with Failed or Canceled, in a table whose columns have a
  -- cell for each row, ends exactly the rows below that task that can still run: each of them takes
  -- the state, the output and the origin and loses its worker. Every other row, which is one that has
  -- ended before or one that is not below the task, keeps these cells.
  pub propagate_exact :
      (j : ℕ)
      → IsAligned t
      → (Below t index j
          × (is_live (state_at t j) ≡ true)
          × IsEnded s text origin t (propagate_to_children P t index s origin) j)
        ⊎ (((is_live (state_at t j) ≡ false) ⊎ (¬ (Below t index j)))
            × IsKept t (propagate_to_children P t index s origin) j)
  propagate_exact j a =
      let d = propagate-Propagated a in
      elim (d.outcome j) [
        | inr e ↦ inl (d.within j e.live (cc (e.state, dead)), e.live, e)
        | inl k ↦ elim (Bool-cases (is_live (state_at t j))) [
          | inr over ↦ inr (inl over, k)
          | inl live ↦ inr (inr (λ b. cc (k.state, live, below_dead j b)), k)
        ]
      ]
