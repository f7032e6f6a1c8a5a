-- ===== src/TaskManager/Add/Verdict.antt =====
-- What TaskManager::add makes of the states of the parents.
use ds_service.Base.{
  ℕ, ◌≡◌, ◌≢◌, ◌⊎◌, refl, sym, ap, ◌∙◌, inl, inr, String, Bool, true, false, ◌&&◌, ◌||◌, Option,
  none, some, List, [], ◌∷◌, eq_iff, length, get_or, push_back, eqb, if◌then◌else◌, Bool-cases,
  Option-cases, arith, get_or-push_back,
}
use ds_service.Error.{Error, ok, unexpected, not_found, already_exists}
use ds_service.Messages.{TaskAddRequest}
use ds_service.TaskManager.Add.{
  ParentScan, no_parents, scan_parent, scan_parents, first_in, decide, resolve, push_row, add_row,
  add,
}
use ds_service.TaskManager.Graph.{WellFormed}
use ds_service.TaskManager.Reads.{statuses}
use ds_service.TaskManager.State.{TaskTable, TaskManager, IsAligned, state_at, enqueue}
use ds_service.TaskState.{TaskState, waiting, ready, finished, failed, canceled, undefined, same}
use ds_service.ThirdParty.{ThirdParty}

-- Whether a state stands in a list, and whether only Finished does.
unfoldable pub some_is : TaskState → List TaskState → Bool
some_is s [] = false
some_is s (x ∷ states) = same x s || some_is s states

unfoldable pub all_finished : List TaskState → Bool
all_finished [] = true
all_finished (x ∷ states) = same x finished && all_finished states

-- The state of a new task whose parents are in these states.
unfoldable pub verdict : List TaskState → TaskState
verdict states =
    if some_is failed states
    then failed
    else if some_is canceled states
    then canceled
    else if all_finished states
    then ready
    else waiting

states_at : TaskTable → List ℕ → List TaskState
states_at t [] = []
states_at t (p ∷ parents) = state_at t p ∷ states_at t parents

is_some : Option ℕ → Bool
is_some none = false
is_some (some p) = true

scan-some_is :
    (t : TaskTable) (parents : List ℕ) (scan : ParentScan)
    → (is_some (scan_parents t parents scan).failed_parent
        ≡ (is_some scan.failed_parent || some_is failed (states_at t parents)))
      × (is_some (scan_parents t parents scan).canceled_parent
          ≡ (is_some scan.canceled_parent || some_is canceled (states_at t parents)))
      × (eqb (scan_parents t parents scan).pending_parents 0
          ≡ (eqb scan.pending_parents 0 && all_finished (states_at t parents)))
unfolding scan_parents scan_parent first_in some_is all_finished states_at is_some
scan-some_is t [] scan = ground arith
scan-some_is t (p ∷ parents) scan = ground (arith, scan-some_is t parents (scan_parent t p scan))

decide-verdict :
    (t : TaskTable) (n : ℕ) (parents : List ℕ)
    → (decide t n (scan_parents t parents no_parents)).0 ≡ verdict (states_at t parents)
unfolding decide verdict is_some
decide-verdict t n parents = ground (arith, scan-some_is t parents no_parents)

module _ (P : ThirdParty) where
  -- The parents resolve exactly if all of them are known.
  resolve-statuses :
      (m : TaskManager P) (ids : List String)
      → WellFormed P m
      → ((parents : List ℕ) × (resolve P m.task_index ids ≡ ok parents)
          × (statuses P m ids ≡ states_at m.tasks parents)
          × (some_is undefined (statuses P m ids) ≡ false))
        ⊎ ((e : Error) × (resolve P m.task_index ids ≡ unexpected e)
            × (e.code ≡ not_found)
            × (some_is undefined (statuses P m ids) ≡ true))
  unfolding resolve statuses states_at some_is same
  resolve-statuses m [] w = inl ([], refl, refl, refl)
  resolve-statuses m (id ∷ ids) w = elim (Option-cases (P.find m.task_index id)) [
    | inl e ↦ rw (e, resolve) (inr (_, refl, refl, ground (arith, e)))
    | inr (i, e) ↦
        let known = (w.indexed.sound id i e).0 in
        elim (resolve-statuses m ids w) [
          | inr (x, r, code, missing) ↦
              rw (e, r, resolve) (inr (x, refl, code, ground (arith, e, missing)))
          | inl (parents, r, states, all_known) ↦
              rw (e, r, resolve)
                (inl (
                  i ∷ parents,
                  refl,
                  ground (arith, e, states),
                  ground (arith, e, all_known, w.graph.defined i known),
                ))
        ]
  ]

  status_known :
      (m : TaskManager P) (id : String) (i : ℕ)
      → P.find m.task_index id ≡ some i
      → statuses P m (id ∷ []) ≡ state_at m.tasks i ∷ []
  unfolding statuses
  status_known m id i e = ground (arith, e)

  status_unknown :
      (m : TaskManager P) (id : String)
      → P.find m.task_index id ≡ none
      → statuses P m (id ∷ []) ≡ undefined ∷ []
  unfolding statuses
  status_unknown m id e = ground (arith, e)

  is_known :
      (m : TaskManager P) (request : TaskAddRequest) (i : ℕ)
      → WellFormed P m
      → P.find m.task_index request.task_id ≡ some i
      → statuses P m (request.task_id ∷ []) ≢ undefined ∷ []
  is_known m request i w e h = ground (
    arith,
    sym (status_known m request.task_id i e) ∙ h,
    w.graph.defined i (w.indexed.sound request.task_id i e).0,
  )

  new_row :
      (m : TaskManager P) (request : TaskAddRequest) (parents : List ℕ)
      → IsAligned m.tasks
      → (P.find (add_row P m request parents).task_index request.task_id
          ≡ some (length m.tasks.task_id))
        × (state_at (add_row P m request parents).tasks (length m.tasks.task_id)
            ≡ verdict (states_at m.tasks parents))
  unfolding add_row push_row enqueue
  new_row m request parents a =
      let n = length m.tasks.task_id in
      let s = (decide m.tasks n (scan_parents m.tasks parents no_parents)).0 in
      let indexed : P.find (P.assign m.task_index request.task_id n) request.task_id ≡ some n =
        ground (
          arith,
          P.find-assign m.task_index request.task_id n request.task_id,
          eq_iff request.task_id request.task_id,
        ) in
      let state : get_or (push_back m.tasks.state s) n undefined
          ≡ verdict (states_at m.tasks parents) =
        ground (
          arith,
          get_or-push_back m.tasks.state s n undefined,
          a.state,
          decide-verdict m.tasks n parents,
        ) in
      elim (Bool-cases
        (same (decide m.tasks n (scan_parents m.tasks parents no_parents)).0 ready)) [
          | inl r ↦ rw r (indexed, state)
          | inr r ↦ rw r (indexed, state)
        ]

  new_state :
      (m : TaskManager P) (request : TaskAddRequest) (parents : List ℕ)
      → WellFormed P m
      → statuses P (add_row P m request parents) (request.task_id ∷ [])
        ≡ verdict (states_at m.tasks parents) ∷ []
  new_state m request parents w =
      let (indexed, state) = new_row m request parents w.aligned in
      status_known (add_row P m request parents) request.task_id _ indexed ∙ ap (λ s. s ∷ []) state

  -- What task_add answers and does.
  abbrev pub Adds : TaskManager P → TaskAddRequest → Type 0
  Adds m request =
      ((statuses P m (request.task_id ∷ []) ≢ undefined ∷ [])
        × ((e : Error) × ((add P m request).0 ≡ unexpected e) × (e.code ≡ already_exists))
        × ((add P m request).1 ≡ m))
      ⊎ ((statuses P m (request.task_id ∷ []) ≡ undefined ∷ [])
          × (some_is undefined (statuses P m request.parent_task_ids) ≡ true)
          × ((e : Error) × ((add P m request).0 ≡ unexpected e) × (e.code ≡ not_found))
          × ((add P m request).1 ≡ m))
      ⊎ ((statuses P m (request.task_id ∷ []) ≡ undefined ∷ [])
          × (some_is undefined (statuses P m request.parent_task_ids) ≡ false)
          × ((add P m request).0 ≡ ok tt)
          × (statuses P (add P m request).1 (request.task_id ∷ [])
              ≡ verdict (statuses P m request.parent_task_ids) ∷ []))

  -- In a state that has the invariant of the graph, task_add refuses with AlreadyExists where the id
  -- is known, and with NotFound where a parent is not, and then changes nothing. Otherwise it accepts,
  -- and task_get_status then reports for the new task: Failed if a parent is Failed, else Canceled if
  -- one is Canceled, else Ready if all are Finished, else Waiting.
  pub add-Adds : (m : TaskManager P) (request : TaskAddRequest) → WellFormed P m → Adds m request
  unfolding add
  add-Adds m request w = elim (Option-cases (P.find m.task_index request.task_id)) [
    | inr (i, e) ↦ rw (e, add) (inl (is_known m request i w e, (_, refl, refl), refl))
    | inl e ↦ elim (resolve-statuses m request.parent_task_ids w) [
      | inr (x, r, code, missing) ↦
          rw (e, r, add)
            (inr (inl (status_unknown m request.task_id e, missing, (x, refl, code), refl)))
      | inl (parents, r, states, all_known) ↦
          rw (e, r, add)
            (inr (
              inr (
                status_unknown m request.task_id e,
                all_known,
                refl,
                new_state m request parents w ∙ ap (λ s. verdict s ∷ []) (sym states),
              )))
    ]
  ]
