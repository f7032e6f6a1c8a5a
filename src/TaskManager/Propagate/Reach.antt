-- ===== src/TaskManager/Propagate/Reach.antt =====
-- The rows that the walk over the children ends: exactly those below the row that can still run.
use ds_service.Base.{
  ℕ, zero, suc, ◌<◌, ◌≡◌, inl, inr, String, true, false, List, [], ◌∷◌, arith, eqb, ltb, eqb→eq,
  ltb→lt, subst, if◌then◌else◌, Bool-cases, get_or-set,
}
use ds_service.TaskManager.Graph.Owed.{occ, occ-push_all}
use ds_service.TaskManager.Propagate.{end_row, push_all, walk}
use ds_service.TaskManager.Propagate.Cells.{live_in_range}
use ds_service.TaskManager.State.{TaskTable, state_at, children_at}
use ds_service.TaskState.{TaskState, undefined, is_live}

-- `Below t i j`: a path of children leads from `i` to `j`, and every row between can still run.
pub data Below (t : TaskTable) (i : ℕ) : ℕ → Type 0 where
  child : (c : ℕ) → 0 < occ c (children_at t i) → Below t i c
  deeper :
      (p c : ℕ)
      → Below t i p
      → is_live (state_at t p) ≡ true
      → 0 < occ c (children_at t p)
      → Below t i c

module _ (s : TaskState) (output : String) (origin : ℕ) (dead : is_live s ≡ false) where
  end_row_live :
      (t : TaskTable) (i j : ℕ)
      → is_live (state_at t i) ≡ true
      → is_live (state_at (end_row t s output origin i) j)
        ≡ (if eqb i j then false else is_live (state_at t j))
  unfolding end_row
  end_row_live t i j live =
      ground (arith, live_in_range t.state i live, get_or-set t.state i s j undefined)

  -- A row that has ended stays ended.
  walk_dead :
      (fuel : ℕ) (t : TaskTable) (pending : List ℕ) (j : ℕ)
      → is_live (state_at t j) ≡ false
      → is_live (state_at (walk fuel s output origin t pending).0 j) ≡ false
  unfolding walk
  walk_dead zero t pending j h = h
  walk_dead (suc fuel) t [] j h = h
  walk_dead (suc fuel) t (i ∷ pending) j h = elim (Bool-cases (is_live (state_at t i))) [
    | inl e ↦ rw e (
        walk_dead fuel (end_row t s output origin i) (push_all pending (children_at t i)) j
          (ground (arith, end_row_live t i j e)))
    | inr e ↦ rw e (walk_dead fuel t pending j h)
  ]

  -- A walk that leaves nothing pending has ended every row that was pending.
  pub walk_pending :
      (fuel : ℕ) (t : TaskTable) (pending : List ℕ) (c : ℕ)
      → (walk fuel s output origin t pending).1 ≡ []
      → 0 < occ c pending
      → is_live (state_at (walk fuel s output origin t pending).0 c) ≡ false
  unfolding walk occ
  walk_pending zero t [] c done h = absurd (omega arith)
  walk_pending zero t (i ∷ pending) c done h = cc
  walk_pending (suc fuel) t [] c done h = absurd (omega arith)
  walk_pending (suc fuel) t (i ∷ pending) c done h = ground (
    arith,
    end_row_live t i c,
    occ-push_all c pending (children_at t i),
    walk_dead fuel (end_row t s output origin i) (push_all pending (children_at t i)) c,
    walk_dead fuel t pending c,
    walk_pending fuel (end_row t s output origin i) (push_all pending (children_at t i)) c,
    walk_pending fuel t pending c,
  )

  -- And every child of a row that it ended.
  pub walk_children :
      (fuel : ℕ) (t : TaskTable) (pending : List ℕ) (p c : ℕ)
      → (walk fuel s output origin t pending).1 ≡ []
      → is_live (state_at t p) ≡ true
      → is_live (state_at (walk fuel s output origin t pending).0 p) ≡ false
      → 0 < occ c (children_at t p)
      → is_live (state_at (walk fuel s output origin t pending).0 c) ≡ false
  unfolding walk end_row
  walk_children zero t pending p c done live over h = cc
  walk_children (suc fuel) t [] p c done live over h = cc
  walk_children (suc fuel) t (i ∷ pending) p c done live over h = ground (
    arith,
    end_row_live t i p,
    occ-push_all c pending (children_at t i),
    walk_pending fuel (end_row t s output origin i) (push_all pending (children_at t i)) c,
    walk_children fuel (end_row t s output origin i) (push_all pending (children_at t i)) p c,
    walk_children fuel t pending p c,
  )

  -- It ends no row outside a set that holds the pending rows and is closed under children.
  pub walk_within :
      (R : ℕ → Type 0) (fuel : ℕ) (t : TaskTable) (pending : List ℕ)
      → ((c : ℕ) → 0 < occ c pending → R c)
      → ((p c : ℕ) → R p → is_live (state_at t p) ≡ true → 0 < occ c (children_at t p) → R c)
      → (j : ℕ) → is_live (state_at t j) ≡ true
      → is_live (state_at (walk fuel s output origin t pending).0 j) ≡ false
      → R j
  unfolding walk occ
  walk_within R zero t pending start closed j live over = cc
  walk_within R (suc fuel) t [] start closed j live over = cc
  walk_within R (suc fuel) t (i ∷ pending) start closed j live over = elim (Bool-cases (eqb i j)) [
    | inl hit ↦ subst R (eqb→eq i j hit) head_in
    | inr miss ↦ elim (Bool-cases (is_live (state_at t i))) [
      | inl e ↦
          walk_within R fuel (end_row t s output origin i) (push_all pending (children_at t i))
            (λ c h. elim (Bool-cases (ltb 0 (occ c pending))) [
              | inl there ↦ tail_in c (ltb→lt 0 _ there)
              | inr not_there ↦
                  closed i c head_in e (ground (arith, occ-push_all c pending (children_at t i)))
            ])
            (λ p c r l. closed p c r (ground (arith, end_row_live t i p e, l))) j
            (ground (arith, end_row_live t i j e)) (ground arith)
      | inr e ↦ walk_within R fuel t pending tail_in closed j live (ground arith)
    ]
  ]
    where
      head_in : R i
      head_in = start i (ground arith)

      tail_in : (c : ℕ) → 0 < occ c pending → R c
      tail_in c h = start c (ground arith)
