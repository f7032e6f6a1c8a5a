-- ===== src/TaskManager/Steps/Refusals.antt =====
-- An operation that is refused changes nothing.
use ds_service.Base.{
  ◌≡◌, refl, inl, inr, String, Bool, true, false, List, [], ◌∷◌, ◌==◌, get_or, Bool-cases,
  Option-cases,
}
use ds_service.Error.{Result, ok, unexpected, Result-cases}
use ds_service.Messages.{TaskAddRequest, TaskCancelRequest, TaskSetPriorityRequest, TaskDoneRequest}
use ds_service.TaskManager.Add.{resolve, add}
use ds_service.TaskManager.Cancel.{cancel}
use ds_service.TaskManager.Done.{done}
use ds_service.TaskManager.Get.{pop_usable, claim, get_from, get}
use ds_service.TaskManager.Priority.{set_priority}
use ds_service.TaskManager.State.{TaskManager, state_at}
use ds_service.TaskManager.Steps.{Operation, adds, cancels, sets_priority, gets, dones, after}
use ds_service.TaskState.{ready, running, canceled, same, is_live}
use ds_service.ThirdParty.{ThirdParty}

abbrev pub is_refusal {ℓ} : {A : Type ℓ} → Result A → Bool
is_refusal (ok value) = false
is_refusal (unexpected error) = true

module _ (P : ThirdParty) where
  abbrev pub is_refused : TaskManager P → Operation → Bool
  is_refused m (adds request) = is_refusal (add P m request).0
  is_refused m (cancels request) = is_refusal (cancel P m request).0
  is_refused m (sets_priority request) = is_refusal (set_priority P m request).0
  is_refused m (gets request) = is_refusal (get P m request).0
  is_refused m (dones request) = is_refusal (done P m request).0

  -- The tasks, the index and the counter of the places are the same.
  abbrev pub IsUnchanged : TaskManager P → TaskManager P → Type 0
  IsUnchanged m n = (n.tasks ≡ m.tasks) × (n.task_index ≡ m.task_index) × (n.next_seq ≡ m.next_seq)

  get_from-IsUnchanged :
      (m : TaskManager P) (worker_id : String) (names : List String)
      → is_refusal (get_from P m worker_id names).0 ≡ true
      → IsUnchanged m (get_from P m worker_id names).1
  unfolding get_from claim
  get_from-IsUnchanged m worker_id [] h = (refl, refl, refl)
  get_from-IsUnchanged m worker_id (qname ∷ names) h = elim (Option-cases (P.find m.queue qname)) [
    | inl e ↦ rw (e, get_from) (get_from-IsUnchanged m worker_id names (rw (e, get_from) at h))
    | inr (q, e) ↦
        let popped : TaskManager P = record m {
          queue = P.assign m.queue qname (pop_usable m.tasks q).1;
        } in
        elim (Option-cases (pop_usable m.tasks q).0) [
          | inl n ↦
              rw (e, get_from, n)
                (get_from-IsUnchanged popped worker_id names (rw (e, get_from, n) at h))
          | inr (entry, s) ↦ cc (rw (e, get_from, s) at h)
        ]
  ]

  add-IsUnchanged :
      (m : TaskManager P) (request : TaskAddRequest)
      → is_refusal (add P m request).0 ≡ true
      → IsUnchanged m (add P m request).1
  unfolding add
  add-IsUnchanged m request h = elim (Option-cases (P.find m.task_index request.task_id)) [
    | inr (i, e) ↦ rw (e, add) (refl, refl, refl)
    | inl e ↦ elim (Result-cases (resolve P m.task_index request.parent_task_ids)) [
      | inr (x, r) ↦ rw (e, r, add) (refl, refl, refl)
      | inl (parents, r) ↦ cc (rw (e, r, add) at h)
    ]
  ]

  cancel-IsUnchanged :
      (m : TaskManager P) (request : TaskCancelRequest)
      → is_refusal (cancel P m request).0 ≡ true
      → IsUnchanged m (cancel P m request).1
  unfolding cancel
  cancel-IsUnchanged m request h = elim (Option-cases (P.find m.task_index request.task_id)) [
    | inl e ↦ rw (e, cancel) (refl, refl, refl)
    | inr (i, e) ↦ elim (Bool-cases (is_live (state_at m.tasks i))) [
      | inl live ↦ cc (rw (e, live, cancel) at h)
      | inr over ↦ cc (rw (e, over, cancel) at h)
    ]
  ]

  set_priority-IsUnchanged :
      (m : TaskManager P) (request : TaskSetPriorityRequest)
      → is_refusal (set_priority P m request).0 ≡ true
      → IsUnchanged m (set_priority P m request).1
  unfolding set_priority
  set_priority-IsUnchanged m request h = elim (Option-cases (P.find m.task_index request.task_id)) [
    | inl e ↦ rw (e, set_priority) (refl, refl, refl)
    | inr (i, e) ↦ elim (Bool-cases (same (state_at m.tasks i) ready)) [
      | inl r ↦ cc (rw (e, r, set_priority) at h)
      | inr r ↦ cc (rw (e, r, set_priority) at h)
    ]
  ]

  done-IsUnchanged :
      (m : TaskManager P) (request : TaskDoneRequest)
      → is_refusal (done P m request).0 ≡ true
      → IsUnchanged m (done P m request).1
  unfolding done
  done-IsUnchanged m request h = elim (Option-cases (P.find m.task_index request.task_id)) [
    | inl e ↦ rw (e, done) (refl, refl, refl)
    | inr (i, e) ↦ elim (Bool-cases (same (state_at m.tasks i) canceled)) [
      | inl c ↦ rw (e, done, c) (refl, refl, refl)
      | inr nc ↦ elim (Bool-cases (same (state_at m.tasks i) running)) [
        | inr nr ↦ rw (e, done, nc, nr) (refl, refl, refl)
        | inl r ↦ elim (Bool-cases (get_or m.tasks.worker_id i "" == request.worker_id)) [
          | inr other ↦ rw (e, done, nc, r, other) (refl, refl, refl)
          | inl own ↦ cc (rw (e, nc, r, own, done) at h)
        ]
      ]
    ]
  ]

  -- An operation that the manager refuses changes no task, no index and no place, whatever the state it
  -- is in. (A task_get that finds nothing may have dropped dead entries from the queues.)
  pub refusals-IsUnchanged :
      (m : TaskManager P) (op : Operation) → is_refused m op ≡ true → IsUnchanged m (after P m op)
  unfolding after get
  refusals-IsUnchanged m (adds request) h = add-IsUnchanged m request h
  refusals-IsUnchanged m (cancels request) h = cancel-IsUnchanged m request h
  refusals-IsUnchanged m (sets_priority request) h = set_priority-IsUnchanged m request h
  refusals-IsUnchanged m (dones request) h = done-IsUnchanged m request h
  refusals-IsUnchanged m (gets request) h = get_from-IsUnchanged m request.worker_id request.queue h
