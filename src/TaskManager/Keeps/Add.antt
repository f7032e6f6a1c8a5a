-- ===== src/TaskManager/Keeps/Add.antt =====
-- TaskManager::add keeps the invariant.
pub mod Table
use ds_service.Base.{
  ℕ, suc, ◌+◌, ◌<◌, ◌≡◌, ◌≢◌, refl, sym, ◌∙◌, inl, inr, ◌⊎◌, String, true, false, none, some, List,
  [], ◌∷◌, eq_iff, length, get_or, push_back, eqb, if◌then◌else◌, Bool-cases, Option-cases, arith,
  get_or-push_back, length-push_back, ltb, ltb→lt,
}
use ds_service.Error.{ok, Result-cases}
use ds_service.Messages.{TaskAddRequest}
use ds_service.TaskManager.Add.{
  ParentScan, no_parents, scan_parents, decide, register, resolve, push_row, add_row, add,
}
use ds_service.TaskManager.Graph.{IsGraph, IsIndexed, WellFormed, is_doomed, is_released}
use ds_service.TaskManager.Graph.Owed.{occ, owed, owed-push_back, owed-zero}
use ds_service.TaskManager.Graph.Parents.{
  unfinished, unfinished-cong, scan-pending, scan-failed, scan-canceled, length-register,
  register-edge, owed-register,
}
use ds_service.TaskManager.Keeps.Priority.{enqueue-WellFormed}
use ds_service.TaskManager.State.{
  TaskTable, TaskManager, IsAligned, state_at, children_at, pending_at,
}
use ds_service.TaskState.{TaskState, waiting, ready, undefined, finished, failed, same, is_live}
use ds_service.ThirdParty.{ThirdParty}
use Table.{added_table, added-IsAligned, added-IsGraph}

module _ (P : ThirdParty) where
  -- A resolved list is resolved element by element.
  pub resolve-cons :
      (index : P.HashMap ℕ) (id : String) (ids : List String) (parents : List ℕ)
      → resolve P index (id ∷ ids) ≡ ok parents
      → (i : ℕ) × (ps : List ℕ) × (P.find index id ≡ some i)
        × (resolve P index ids ≡ ok ps)
        × (parents ≡ i ∷ ps)
  unfolding resolve
  resolve-cons index id ids parents h = elim (Option-cases (P.find index id)) [
    | inl e ↦ cc (rw (e, resolve) at h)
    | inr (i, e) ↦ elim (Result-cases (resolve P index ids)) [
      | inl (ps, r) ↦ (i, ps, e, r, sym (cc (rw (e, r, resolve) at h)))
      | inr (x, r) ↦ cc (rw (e, r, resolve) at h)
    ]
  ]

  -- Every parent that the request names is a row.
  pub resolve_in_range :
      (m : TaskManager P) (ids : List String) (parents : List ℕ) (p : ℕ)
      → IsIndexed P m
      → resolve P m.task_index ids ≡ ok parents
      → 0 < occ p parents
      → p < length m.tasks.task_id
  unfolding resolve occ
  resolve_in_range m [] parents p x e h = ground arith
  resolve_in_range m (id ∷ ids) parents p x e h =
      let (i, ps, found, rest, split) = resolve-cons m.task_index id ids parents e in
      ground (arith, x.sound id i found, resolve_in_range m ids ps p x rest)

  assign-IsIndexed :
      (m m' : TaskManager P) (id : String)
      → P.find m.task_index id ≡ none
      → m'.task_index ≡ P.assign m.task_index id (length m.tasks.task_id)
      → m'.tasks.task_id ≡ push_back m.tasks.task_id id
      → IsIndexed P m
      → IsIndexed P m'
  assign-IsIndexed m m' id fresh index ids x = record {
    sound = λ j i h. rw ids (
        ground (
          arith,
          rw (index, P.find-assign m.task_index id (length m.tasks.task_id) j) at h,
          eq_iff id j,
          x.sound j i,
          get_or-push_back m.tasks.task_id id i "",
          length-push_back m.tasks.task_id id,
        ));
    complete = λ i h.
        rw (index, ids)
          (ground (
            arith,
            rw ids at h,
            P.find-assign m.task_index id (length m.tasks.task_id)
                (get_or (push_back m.tasks.task_id id) i ""),
            eq_iff id (get_or m.tasks.task_id i ""),
            eq_iff id id,
            x.complete i,
            get_or-push_back m.tasks.task_id id i "",
            length-push_back m.tasks.task_id id,
          ));
  }

  add_row-WellFormed :
      (m : TaskManager P) (request : TaskAddRequest) (parents : List ℕ)
      → P.find m.task_index request.task_id ≡ none
      → resolve P m.task_index request.parent_task_ids ≡ ok parents
      → WellFormed P m
      → WellFormed P (add_row P m request parents)
  unfolding add_row added_table
  add_row-WellFormed m request parents fresh resolved w =
      let near = λ (p : ℕ) (h : 0 < occ p parents).
        resolve_in_range m request.parent_task_ids parents p w.indexed resolved h in
      let added : TaskManager P = record m {
        tasks = added_table P m.tasks request parents w.aligned w.graph near;
        task_index = P.assign m.task_index request.task_id (length m.tasks.task_id);
      } in
      let kept : WellFormed P added = record {
        aligned = added-IsAligned P m.tasks request parents w.aligned w.graph near;
        graph = added-IsGraph P m.tasks request parents w.aligned w.graph near;
        indexed = assign-IsIndexed m added request.task_id fresh refl refl w.indexed;
      } in
      elim (Bool-cases (
        same (decide m.tasks (length m.tasks.task_id) (scan_parents m.tasks parents no_parents)).0
          ready)) [
            | inl r ↦ rw r (enqueue-WellFormed P added (length m.tasks.task_id) kept)
            | inr r ↦ rw r kept
          ]

  pub add-WellFormed :
      (m : TaskManager P) (request : TaskAddRequest)
      → WellFormed P m
      → WellFormed P (add P m request).1
  unfolding add
  add-WellFormed m request w = elim (Option-cases (P.find m.task_index request.task_id)) [
    | inr (i, e) ↦ rw (e, add) w
    | inl e ↦ elim (Result-cases (resolve P m.task_index request.parent_task_ids)) [
      | inr (x, r) ↦ rw (e, r, add) w
      | inl (parents, r) ↦ rw (e, r, add) (add_row-WellFormed m request parents e r w)
    ]
  ]
