-- ===== src/TaskManager/Keeps/Add/Table.antt =====
-- The table of TaskManager::add, with its new row and its new edges.
use ds_service.Base.{
  ℕ, suc, ◌+◌, ◌<◌, ◌≡◌, ◌≢◌, refl, ◌∙◌, inl, inr, ◌⊎◌, true, false, some, List, [], length, get_or,
  push_back, eqb, if◌then◌else◌, Bool-cases, arith, get_or-push_back, length-push_back, ltb, ltb→lt,
}
use ds_service.Messages.{TaskAddRequest}
use ds_service.TaskManager.Add.{ParentScan, no_parents, scan_parents, decide, register, push_row}
use ds_service.TaskManager.Graph.{IsGraph, is_doomed, is_released}
use ds_service.TaskManager.Graph.Owed.{occ, owed, owed-push_back, owed-zero}
use ds_service.TaskManager.Graph.Parents.{
  unfinished, unfinished-cong, scan-pending, scan-failed, scan-canceled, length-register,
  register-edge, owed-register,
}
use ds_service.TaskManager.State.{TaskTable, IsAligned, state_at, children_at, pending_at}
use ds_service.TaskState.{TaskState, waiting, undefined, finished, failed, same, is_live}
use ds_service.ThirdParty.{ThirdParty}

failed_dead : is_live failed ≡ false
unfolding is_live
failed_dead = refl

-- What `decide` gives for what the scan found.
module _ (t : TaskTable) (n : ℕ) (scan : ParentScan) where
  abbrev decided : TaskState
  decided = (decide t n scan).0

  decide_failed : (q : ℕ) → scan.failed_parent ≡ some q → decided ≡ failed
  unfolding decide
  decide_failed q h = ground arith

  decide_canceled : (q : ℕ) → scan.canceled_parent ≡ some q → is_live decided ≡ false
  unfolding decide is_live
  decide_canceled q h = ground arith

  decide_defined : decided ≢ undefined
  unfolding decide
  decide_defined = ground arith

  decide_held : decided ≡ waiting → 0 < scan.pending_parents
  unfolding decide
  decide_held = ground arith

  decide_released : is_released decided ≡ true → scan.pending_parents ≡ 0
  unfolding decide is_released
  decide_released = ground arith

length-grow {ℓ κ} :
    {A : Type ℓ} {B : Type κ} (xs : List A) (v : A) (ys : List B) (w : B)
    → length xs ≡ length ys
    → length (push_back xs v) ≡ length (push_back ys w)
length-grow xs v ys w h = omega (arith, length-push_back xs v, length-push_back ys w)

-- The table with the new row, and what holds of its columns.
module _ (P : ThirdParty) (t : TaskTable) (request : TaskAddRequest) (parents : List ℕ)
    (a : IsAligned t) (g : IsGraph t)
    (near : (p : ℕ) → 0 < occ p parents → p < length t.task_id) where
  abbrev n : ℕ
  n = length t.task_id

  abbrev scan : ParentScan
  scan = scan_parents t parents no_parents

  abbrev new_state : TaskState
  new_state = (decide t n scan).0

  abbrev pushed : TaskTable
  pushed = push_row P t request new_state scan.pending_parents (decide t n scan).1

  unfoldable pub added_table : TaskTable
  added_table = record pushed { children = register pushed pushed.children parents n }

  state_at-pushed :
      (c : ℕ)
      → get_or (push_back t.state new_state) c undefined
        ≡ (if eqb c n then new_state else state_at t c)
  state_at-pushed c = ground (arith, get_or-push_back t.state new_state c undefined, a.state)

  pending_at-pushed :
      (c : ℕ)
      → get_or (push_back t.pending_parents scan.pending_parents) c 0
        ≡ (if eqb c n then scan.pending_parents else pending_at t c)
  pending_at-pushed c =
      ground (arith, get_or-push_back t.pending_parents scan.pending_parents c 0, a.pending_parents)

  children_at-pushed :
      (p : ℕ) → get_or (push_back t.children []) p [] ≡ (if eqb p n then [] else children_at t p)
  children_at-pushed p = ground (arith, get_or-push_back t.children [] p [], a.children)

  pub added-IsAligned : IsAligned added_table
  unfolding added_table push_row
  added-IsAligned = record {
    function = length-grow t.function _ t.task_id _ a.function;
    input = length-grow t.input _ t.task_id _ a.input;
    output = length-grow t.output _ t.task_id _ a.output;
    state = length-grow t.state _ t.task_id _ a.state;
    worker_id = length-grow t.worker_id _ t.task_id _ a.worker_id;
    priority = length-grow t.priority _ t.task_id _ a.priority;
    queues = length-grow t.queues _ t.task_id _ a.queues;
    seq = length-grow t.seq _ t.task_id _ a.seq;
    pending_parents = length-grow t.pending_parents _ t.task_id _ a.pending_parents;
    children =
        length-register pushed n pushed.children parents
        ∙ length-grow t.children _ t.task_id _ a.children;
    terminal_origin = length-grow t.terminal_origin _ t.task_id _ a.terminal_origin;
  }

  -- An edge of the new table.
  edge_cases :
      (p c : ℕ)
      → 0 < occ c (children_at added_table p)
      → (0 < occ c (children_at t p))
        ⊎ ((c ≡ n) × (0 < occ p parents) × (same (state_at t p) finished ≡ false))
  unfolding added_table push_row occ
  edge_cases p c h = ground (
    arith,
    register-edge pushed n pushed.children parents p c,
    children_at-pushed p,
    state_at-pushed p,
    near p,
  )

  rows-added : length added_table.task_id ≡ suc n
  unfolding added_table push_row
  rows-added = length-push_back t.task_id request.task_id

  state_at-parent : (p : ℕ) → 0 < occ p parents → state_at pushed p ≡ state_at t p
  unfolding push_row
  state_at-parent p h = ground (arith, state_at-pushed p, near p h)

  pending-scan : scan.pending_parents ≡ unfinished pushed parents
  pending-scan =
      ground
        (arith, scan-pending t parents no_parents, unfinished-cong t pushed parents state_at-parent)

  owed-added :
      (c : ℕ)
      → owed added_table.state added_table.children c
        ≡ owed t.state t.children c + (if eqb n c then scan.pending_parents else 0)
  unfolding added_table push_row
  owed-added c =
      let before = owed-push_back c t.state t.children new_state (omega (arith, a)) in
      ground (
        arith,
        pending-scan,
        before,
        owed-register pushed n pushed.state pushed.children parents c
            (omega (arith, a, length-push_back t.state new_state, length-push_back t.children []))
            (λ p h. (omega (arith, a, near p h, length-push_back t.state new_state), refl)),
      )

  -- No row leads to the new one before.
  owed-new : owed t.state t.children n ≡ 0
  owed-new = owed-zero n t.state t.children (λ p. no_edge p)
    where
      no_edge : (p : ℕ) → occ n (children_at t p) ≡ 0
      no_edge p = elim (Bool-cases (ltb 0 (occ n (children_at t p)))) [
        | inl some_edge ↦ absurd (omega (arith, g.forward p n (ltb→lt 0 _ some_edge)))
        | inr none_edge ↦ ground arith
      ]

  doomed_child :
      (p : ℕ) → 0 < occ p parents → is_doomed (state_at t p) ≡ true → is_live new_state ≡ false
  unfolding is_doomed
  doomed_child p h d = elim (Bool-cases (same (state_at t p) failed)) [
    | inl f ↦
        let (q, found) = scan-failed t parents no_parents p h f in
        rw (decide_failed t n scan q found) failed_dead
    | inr nf ↦
        let (q, found) = scan-canceled t parents no_parents p h (ground arith) in
        decide_canceled t n scan q found
  ]

  pub added-IsGraph : IsGraph added_table
  unfolding added_table push_row
  added-IsGraph = record {
    forward = λ p c h. ground (arith, edge_cases p c h, g.forward p c, near p, rows-added);
    counted =
        λ c h. ground (arith, pending_at-pushed c, owed-added c, owed-new, rows-added, g.counted c);
    defined =
        λ c h. ground (arith, state_at-pushed c, rows-added, g.defined c, decide_defined t n scan);
    held = λ c h w.
        ground (
          arith,
          state_at-pushed c,
          pending_at-pushed c,
          rows-added,
          g.held c,
          decide_held t n scan,
        );
    released = λ c h w. ground (
      arith,
      state_at-pushed c,
      pending_at-pushed c,
      rows-added,
      g.released c,
      decide_released t n scan,
    );
    ended = λ p c h d. ground (
      arith,
      edge_cases p c h,
      state_at-pushed c,
      state_at-pushed p,
      g.forward p c,
      g.ended p c,
      near p,
      doomed_child p,
    );
  }
