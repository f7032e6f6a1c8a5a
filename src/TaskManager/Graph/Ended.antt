-- ===== src/TaskManager/Graph/Ended.antt =====
-- The graph after a row ended without finishing and its ending was passed on to its children.
use ds_service.Base.{
  ℕ, ◌<◌, ◌≡◌, ◌⊎◌, inl, inr, sym, ap, String, true, false, length, set, eqb, arith, Bool-cases,
  get_or-set, length-set, eqb→eq, subst, ◌∙◌,
}
use ds_service.TaskManager.Graph.{IsGraph, is_doomed, is_released}
use ds_service.TaskManager.Graph.Owed.{occ, owed, owed-cong}
use ds_service.TaskManager.Propagate.Cells.{live_in_range}
use ds_service.TaskManager.Propagate.Outcomes.{Propagated}
use ds_service.TaskManager.Propagate.Reach.{child}
use ds_service.TaskManager.State.{TaskTable, IsAligned, state_at, children_at, pending_at}
use ds_service.TaskState.{TaskState, finished, undefined, same, is_live}

-- `t` before, `t'` with the ending of the row `index`, `u` after the walk.
pub record Ending (s : TaskState) (text : String) (origin index : ℕ) (t t' u : TaskTable)
    : Type 0 where
  pub doomed : is_doomed s ≡ true
  pub live : is_live (state_at t index) ≡ true
  pub aligned : IsAligned t
  pub task_id : t'.task_id ≡ t.task_id
  pub state : t'.state ≡ set t.state index s
  pub pending_parents : t'.pending_parents ≡ t.pending_parents
  pub children : t'.children ≡ t.children
  pub propagated : Propagated s text origin index t' u

doomed_dead : (s : TaskState) → is_doomed s ≡ true → is_live s ≡ false
unfolding is_doomed is_live
doomed_dead s h = ground arith

module _ {s : TaskState} {text : String} {origin index : ℕ} {t t' u : TaskTable}
    (e : Ending s text origin index t t' u) where
  state_at-index : state_at t' index ≡ s
  state_at-index = rw e.state (
      ground
        (arith, live_in_range t.state index e.live, get_or-set t.state index s index undefined))

  state_at-other : (c : ℕ) → eqb index c ≡ false → state_at t' c ≡ state_at t c
  state_at-other c h = rw e.state (ground (arith, get_or-set t.state index s c undefined))

  -- A row that could still run has the ending, or the row has the state it had.
  pub state_cases :
      (c : ℕ)
      → ((is_live (state_at t c) ≡ true) × (state_at u c ≡ s)) ⊎ (state_at u c ≡ state_at t c)
  state_cases c = elim (Bool-cases (eqb index c)) [
    | inl hit ↦ inl (
      subst (λ (i : ℕ). is_live (state_at t i) ≡ true) (eqb→eq index c hit) e.live,
      elim (e.propagated.outcome c) [
        | inl k ↦ k.state ∙ ap (state_at t') (sym (eqb→eq index c hit)) ∙ state_at-index
        | inr x ↦ x.state
      ],
    )
    | inr miss ↦ elim (e.propagated.outcome c) [
      | inl k ↦ inr (k.state ∙ state_at-other c miss)
      | inr x ↦ inl (cc (x.live, state_at-other c miss), x.state)
    ]
  ]

  dead_stays : (c : ℕ) → is_live (state_at t c) ≡ false → is_live (state_at u c) ≡ false
  dead_stays c h = ground (arith, state_cases c, doomed_dead s e.doomed)

  pub children_same : (p : ℕ) → children_at u p ≡ children_at t p
  children_same p = rw (e.propagated.same_graph.children, e.children)

  same_finished : (i : ℕ) → same (state_at u i) finished ≡ same (state_at t i) finished
  unfolding is_doomed is_live
  same_finished i = ground (arith, state_cases i, e.doomed)

  pub owed_same : (c : ℕ) → owed u.state u.children c ≡ owed t.state t.children c
  owed_same c =
      rw (e.propagated.same_graph.children, e.children)
        (owed-cong c t.state u.state t.children
          (e.propagated.same_graph.state ∙ ap length e.state ∙ length-set t.state index s)
          same_finished)

  pub pending_same : (c : ℕ) → pending_at u c ≡ pending_at t c
  pending_same c = rw (e.propagated.same_graph.pending_parents, e.pending_parents)

  rows_same : length u.task_id ≡ length t.task_id
  rows_same = ap length (e.propagated.same_graph.task_id ∙ e.task_id)

  ended_below :
      IsGraph t
      → (p c : ℕ) → 0 < occ c (children_at t p)
      → is_doomed (state_at u p) ≡ true
      → is_live (state_at u c) ≡ false
  ended_below g p c h d = elim (Bool-cases (eqb index p)) [
    | inl hit ↦ e.propagated.below c (child c (rw (e.children, eqb→eq index p hit) h))
    | inr miss ↦ elim (e.propagated.outcome p) [
      | inl k ↦ dead_stays c (g.ended p c h (cc (k.state, state_at-other p miss, d)))
      | inr x ↦
          e.propagated.children p c x.live (cc (x.state, doomed_dead s e.doomed)) (rw e.children h)
    ]
  ]

  pub Ending-IsGraph : IsGraph t → IsGraph u
  unfolding is_doomed is_released is_live
  Ending-IsGraph g = record {
    forward = λ p c h. rw rows_same (g.forward p c (rw children_same at h));
    counted = λ c h. pending_same c ∙ g.counted c (rw rows_same at h) ∙ sym (owed_same c);
    defined = λ c h. ground (arith, state_cases c, e.doomed, g.defined c (rw rows_same at h));
    held = λ c h w.
        ground (arith, state_cases c, e.doomed, pending_same c, g.held c (rw rows_same at h));
    released = λ c h w.
        ground (arith, state_cases c, e.doomed, pending_same c, g.released c (rw rows_same at h));
    ended = λ p c h d. ended_below g p c (rw children_same at h) d;
  }
