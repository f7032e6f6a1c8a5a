-- ===== src/TaskManager/Graph/Passed.antt =====
-- Which rows an ending without success reaches, in terms of the table before it.
use ds_service.Base.{
  ℕ, ◌<◌, ◌≡◌, ◌≢◌, ◌⊎◌, inl, inr, sym, ◌∙◌, subst, String, true, false, eqb, arith, Bool-cases,
  get_or-set, eqb→eq,
}
use ds_service.TaskManager.Graph.Ended.{Ending}
use ds_service.TaskManager.Graph.Owed.{occ}
use ds_service.TaskManager.Propagate.Cells.{IsKept, IsEnded, live_in_range}
use ds_service.TaskManager.Propagate.Reach.{Below, child, deeper}
use ds_service.TaskManager.State.{TaskTable, state_at, children_at}
use ds_service.TaskState.{TaskState, undefined, is_live}

-- What the ending of the row `index` makes of another row: a row below it that can still run has the
-- ending, and every other row is kept.
abbrev pub Passed : TaskState → String → ℕ → TaskTable → TaskTable → ℕ → Type 0
Passed s text index t u j =
    (Below t index j × IsEnded s text index t u j)
    ⊎ (((is_live (state_at t j) ≡ false) ⊎ (¬ (Below t index j))) × IsKept t u j)

module _ {s : TaskState} {text : String} {index : ℕ} {t t' u : TaskTable}
    (e : Ending s text index index t t' u) (dead : is_live s ≡ false)
    (kept : (j : ℕ) → j ≢ index → IsKept t t' j) where
  at_index : state_at t' index ≡ s
  at_index = rw e.state (
      ground
        (arith, live_in_range t.state index e.live, get_or-set t.state index s index undefined))

  dead_at_index : is_live (state_at t' index) ≡ false
  dead_at_index = rw at_index dead

  other_than : (p : ℕ) → is_live (state_at t' p) ≡ true → p ≢ index
  other_than p live same = cc (live, same, dead_at_index)

  -- The same rows are below the row in both tables.
  Below-before : (j : ℕ) → Below t' index j → Below t index j
  Below-before j (child _ h) = child j (rw (sym e.children) h)
  Below-before j (deeper p _ b live h) =
      deeper p j (Below-before p b) (cc (live, (kept p (other_than p live)).state))
        (rw (sym e.children) h)

  Below-after : (j : ℕ) → Below t index j → Below t' index j
  Below-after j (child _ h) = child j (rw e.children h)
  Below-after j (deeper p _ b live h) = elim (Bool-cases (eqb p index)) [
    | inl same ↦
        child j (subst (λ q. 0 < occ j (children_at t' q)) (eqb→eq p index same) (rw e.children h))
    | inr other ↦
        deeper p j (Below-after p b)
          (cc (live, (kept p (λ same. ground (arith, other, same))).state)) (rw e.children h)
  ]

  pub Ending-Passed : (j : ℕ) → j ≢ index → Passed s text index t u j
  Ending-Passed j other =
      let k = kept j other in
      elim (e.propagated.outcome j) [
        | inr x ↦ inl (
          Below-before j (e.propagated.within j x.live (cc (x.state, dead))),
          record {
            live = cc (x.live, k.state);
            state = x.state;
            output = x.output;
            worker_id = x.worker_id;
            origin = x.origin;
          },
        )
        | inl y ↦
            let both : IsKept t u j = record {
              state = y.state ∙ k.state;
              output = y.output ∙ k.output;
              worker_id = y.worker_id ∙ k.worker_id;
              origin = y.origin ∙ k.origin;
            } in
            elim (Bool-cases (is_live (state_at t j))) [
              | inr over ↦ inr (inl over, both)
              | inl live ↦ inr (
                inr (λ b. cc (y.state, k.state, live, e.propagated.below j (Below-after j b))),
                both,
              )
            ]
      ]

  -- The row itself keeps what its own ending wrote.
  pub Ending-own : IsKept t' u index
  Ending-own = elim (e.propagated.outcome index) [ inl y ↦ y | inr x ↦ cc (x.live, dead_at_index) ]
