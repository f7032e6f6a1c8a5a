-- ===== src/TaskManager/Progress.antt =====
-- What the invariant says of a task that waits and of a task that may run.
use ds_service.Base.{
  ℕ, zero, suc, ◌<◌, ◌≡◌, inl, inr, ◌⊎◌, true, false, List, [], ◌∷◌, length, get_or, Bool-cases,
  arith, ltb, ltb→lt,
}
use ds_service.TaskManager.Graph.{WellFormed, is_doomed, is_released}
use ds_service.TaskManager.Graph.Owed.{occ, owed, share, share-le-owed}
use ds_service.TaskManager.State.{TaskTable, TaskManager, state_at, children_at}
use ds_service.TaskState.{TaskState, waiting, ready, running, finished, undefined, same, is_live}
use ds_service.TaskManager.Steps.{Steps, initial, reachable-WellFormed}
use ds_service.ThirdParty.{ThirdParty}

-- A row that is owed something has an edge from a row that has not finished.
owed-pos :
    (c : ℕ) (states : List TaskState) (rows : List (List ℕ))
    → 0 < owed states rows c
    → (p : ℕ) × (p < length states)
      × (0 < occ c (get_or rows p []))
      × (same (get_or states p undefined) finished ≡ false)
unfolding owed share get_or
owed-pos c [] rows h = absurd (omega arith)
owed-pos c (x ∷ states) [] h = absurd (omega arith)
owed-pos c (x ∷ states) (cs ∷ rows) h = elim (Bool-cases (same x finished)) [
  | inl f ↦
      let (p, lt, edge, nf) = owed-pos c states rows (ground arith) in
      (suc p, omega arith, edge, nf)
  | inr f ↦ elim (Bool-cases (ltb 0 (occ c cs))) [
    | inl edge ↦ (0, omega arith, ltb→lt 0 _ edge, f)
    | inr away ↦
        let (p, lt, edge, nf) = owed-pos c states rows (ground arith) in
        (suc p, omega arith, edge, nf)
  ]
]

-- `Above t a c`: a path of children leads from `a` to `c`.
pub data Above (t : TaskTable) (a : ℕ) : ℕ → Type 0 where
  parent : (c : ℕ) → 0 < occ c (children_at t a) → Above t a c
  further : (p c : ℕ) → Above t a p → 0 < occ c (children_at t p) → Above t a c

-- A task that runs, or that a worker can claim.
abbrev pub IsActive : TaskState → Type 0
IsActive s = (s ≡ ready) ⊎ (s ≡ running)

live_cases : (s : TaskState) → is_live s ≡ true → (s ≡ waiting) ⊎ IsActive s
unfolding is_live same
live_cases s h = ground arith

module _ (P : ThirdParty) (m : TaskManager P) (reached : Steps P (initial P) m) where
  w : WellFormed P m
  w = reachable-WellFormed P m reached

  abbrev rows : ℕ
  rows = length m.tasks.task_id

  -- A waiting task has a parent, added before it, that can still run or is running.
  live_parent :
      (c : ℕ)
      → c < rows
      → state_at m.tasks c ≡ waiting
      → (p : ℕ) × (p < c)
        × (0 < occ c (children_at m.tasks p))
        × (is_live (state_at m.tasks p) ≡ true)
  unfolding is_live is_doomed same
  live_parent c h s =
      let (p, lt, edge, nf) =
        owed-pos c m.tasks.state m.tasks.children
          (ground (arith, w.graph.held c h s, w.graph.counted c h)) in
      (
        p,
        (w.graph.forward p c edge).0,
        edge,
        ground (
          arith,
          nf,
          s,
          w.graph.ended p c edge,
          w.graph.defined p (omega (arith, lt, w.aligned)),
        ),
      )

  -- In every state that the manager reaches, no task of which a parent has not finished is Ready, Running
  -- or Finished.
  pub parents_finished :
      (p c : ℕ)
      → 0 < occ c (children_at m.tasks p)
      → is_released (state_at m.tasks c) ≡ true
      → state_at m.tasks p ≡ finished
  unfolding share same
  parents_finished p c h r = ground (
    arith,
    w.graph.forward p c h,
    w.graph.released c,
    w.graph.counted c,
    share-le-owed c m.tasks.state m.tasks.children p,
    w.aligned,
  )

  IsActive-Above :
      (k c : ℕ)
      → c < k
      → c < rows
      → state_at m.tasks c ≡ waiting
      → (a : ℕ) × Above m.tasks a c × IsActive (state_at m.tasks a)
  IsActive-Above zero c lt h s = absurd (omega arith)
  IsActive-Above (suc k) c lt h s =
      let (p, before, edge, live) = live_parent c h s in
      elim (live_cases (state_at m.tasks p) live) [
        | inr active ↦ (p, parent c edge, active)
        | inl waits ↦
            let (a, above, active) =
              IsActive-Above k p (omega (arith, before)) (omega (arith, before)) waits in
            (a, further p c above edge, active)
      ]

  -- In every state that the manager reaches, no task waits for nothing: above every Waiting task, along the
  -- edges of the graph, there is a task that is Ready or Running.
  pub waiting_progress :
      (c : ℕ)
      → c < length m.tasks.task_id
      → state_at m.tasks c ≡ waiting
      → (a : ℕ) × Above m.tasks a c × IsActive (state_at m.tasks a)
  waiting_progress c h s = IsActive-Above (suc c) c (omega arith) h s
