-- ===== src/TaskManager/Graph/Origins/Add.antt =====
-- TaskManager::add takes the origin of a row that cannot run from a parent.
use ds_service.Base.{
  ℕ, zero, suc, ◌<◌, ◌≡◌, inl, inr, true, false, some, List, [], ◌∷◌, length, get_or, eqb, eqb→eq,
  arith, subst, sym, String, if◌then◌else◌, ◌||◌, Bool-cases, Option-cases, get_or-push_back,
}
use ds_service.Messages.{TaskAddRequest}
use ds_service.TaskManager.Add.{
  ParentScan, no_parents, first_in, scan_parent, scan_parents, decide, push_row,
}
use ds_service.TaskManager.Graph.{is_doomed}
use ds_service.TaskManager.Propagate.{terminal_output}
use ds_service.TaskManager.State.{TaskTable, IsAligned, state_at, origin_at}
use ds_service.TaskState.{TaskState, failed, canceled, undefined, same}
use ds_service.ThirdParty.{ThirdParty}
use ds_service.TaskManager.Graph.Origins.{IsRooted, AllRooted, IsFixed, Roots}

-- What the scan has found is a parent in that state.
record IsFound (t : TaskTable) (scan : ParentScan) : Type 0 where
  failed : (q : ℕ) → scan.failed_parent ≡ some q → state_at t q ≡ failed
  canceled : (q : ℕ) → scan.canceled_parent ≡ some q → state_at t q ≡ canceled

scan-IsFound :
    (t : TaskTable) (parents : List ℕ) (scan : ParentScan)
    → IsFound t scan
    → IsFound t (scan_parents t parents scan)
unfolding scan_parents scan_parent first_in same
scan-IsFound t [] scan f = f
scan-IsFound t (p ∷ parents) scan f = scan-IsFound t parents (scan_parent t p scan) (record {
  failed = λ q e. ground (arith, e, f.failed q);
  canceled = λ q e. ground (arith, e, f.canceled q);
})

-- A new row that cannot run has the state and the origin of a parent.
decided :
    (t : TaskTable) (n : ℕ) (scan : ParentScan)
    → IsFound t scan
    → is_doomed (decide t n scan).0 ≡ true
    → (q : ℕ) × (state_at t q ≡ (decide t n scan).0) × ((decide t n scan).1 ≡ origin_at t q)
unfolding decide is_doomed
decided t n scan f doomed = elim (Option-cases scan.failed_parent) [
  | inr (q, e) ↦ (q, ground (arith, e, f.failed q e), ground (arith, e))
  | inl e ↦ elim (Option-cases scan.canceled_parent) [
    | inr (q, c) ↦ (q, ground (arith, e, c, f.canceled q c), ground (arith, e, c))
    | inl c ↦ absurd (ground (arith, e, c, doomed))
  ]
]

pub decided_by_parent :
    (t : TaskTable) (n : ℕ) (parents : List ℕ)
    → is_doomed (decide t n (scan_parents t parents no_parents)).0 ≡ true
    → (q : ℕ) × (state_at t q ≡ (decide t n (scan_parents t parents no_parents)).0)
      × ((decide t n (scan_parents t parents no_parents)).1 ≡ origin_at t q)
decided_by_parent t n parents = decided t n (scan_parents t parents no_parents) (
    scan-IsFound t parents no_parents
      (record { failed = λ q e. ground arith; canceled = λ q e. ground arith }))

doomed_in_range :
    (states : List TaskState) (i : ℕ)
    → is_doomed (get_or states i undefined) ≡ true
    → i < length states
unfolding get_or is_doomed
doomed_in_range [] i h = ground arith
doomed_in_range (s ∷ states) zero h = omega arith
doomed_in_range (s ∷ states) (suc i) h = omega (arith, doomed_in_range states i h)

module _ (P : ThirdParty) (t : TaskTable) (request : TaskAddRequest) (s : TaskState)
    (pending origin : ℕ) (rows : List (List ℕ)) (a : IsAligned t) where
  abbrev pushed : TaskTable
  pushed = record (push_row P t request s pending origin) { children = rows }

  abbrev text : String
  text = if same s failed || same s canceled then terminal_output P t s origin else ""

  old-IsFixed : (i : ℕ) → i < length t.task_id → IsFixed P t pushed i
  unfolding push_row
  old-IsFixed i h = record {
    state = ground (arith, a.state, get_or-push_back t.state s i undefined);
    origin = ground (arith, a.terminal_origin, get_or-push_back t.terminal_origin origin i 0);
    output = ground (arith, a.output, get_or-push_back t.output text i "");
    task_id = ground (arith, get_or-push_back t.task_id request.task_id i "");
  }

  other_state : (i : ℕ) → eqb i (length t.task_id) ≡ false → state_at pushed i ≡ state_at t i
  unfolding push_row
  other_state i other = ground (arith, other, a.state, get_or-push_back t.state s i undefined)

  own_state : state_at pushed (length t.task_id) ≡ s
  unfolding push_row
  own_state = ground (arith, a.state, get_or-push_back t.state s (length t.task_id) undefined)

  new-IsRooted :
      (q : ℕ)
      → is_doomed s ≡ true
      → state_at t q ≡ s
      → origin ≡ origin_at t q
      → IsRooted P t q
      → IsRooted P pushed (length t.task_id)
  unfolding push_row terminal_output is_doomed
  new-IsRooted q doomed state from r =
      let h : origin < length t.task_id =
        ground (arith, a.state, r.state, doomed_in_range t.state origin) in
      let f = old-IsFixed origin h in
      let new_origin : origin_at pushed (length t.task_id) ≡ origin = ground (
        arith,
        a.terminal_origin,
        get_or-push_back t.terminal_origin origin (length t.task_id) 0,
      ) in
      let new_state = own_state in
      record {
        state = ground (arith, new_origin, new_state, f.state, r.state, state, from);
        origin = ground (arith, new_origin, f.origin, r.origin, from);
        failed_output = λ _ at_failed. ground (
          arith,
          at_failed,
          new_origin,
          new_state,
          f.task_id,
          doomed,
          a.output,
          get_or-push_back t.output text (length t.task_id) "",
        );
        canceled_output = λ _ at_canceled. ground (
          arith,
          at_canceled,
          new_origin,
          new_state,
          f.task_id,
          doomed,
          a.output,
          get_or-push_back t.output text (length t.task_id) "",
        );
      }

  pub pushed-Roots :
      (is_doomed s ≡ true → (q : ℕ) × (state_at t q ≡ s) × (origin ≡ origin_at t q))
      → AllRooted P t
      → Roots P t pushed
  pushed-Roots from r = record {
    fixed = λ i before. old-IsFixed i (omega (arith, a.state, doomed_in_range t.state i before));
    fresh = λ i before now. elim (Bool-cases (eqb i (length t.task_id))) [
      | inr other ↦ absurd (ground (arith, before, now, other_state i other))
      | inl same ↦
          let here : i ≡ length t.task_id = eqb→eq i (length t.task_id) same in
          let doomed : is_doomed s ≡ true = ground (arith, here, now, own_state) in
          let (q, state, from_q) = from doomed in
          subst (IsRooted P pushed) (sym here)
            (new-IsRooted q doomed state from_q (r q (rw state doomed)))
    ];
  }
