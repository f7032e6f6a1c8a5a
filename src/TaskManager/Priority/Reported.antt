-- ===== src/TaskManager/Priority/Reported.antt =====
-- What task_get_priority reports after task_set_priority.
use ds_service.Base.{
  ℕ, ◌≡◌, refl, inl, inr, none, some, ◌==◌, eq_iff, set, if◌then◌else◌, Bool-cases, Option-cases,
  arith, get_or-set,
}
use ds_service.Double.{zero_double}
use ds_service.Error.{ok}
use ds_service.Messages.{TaskSetPriorityRequest, TaskGetPriorityRequest}
use ds_service.TaskManager.Graph.{WellFormed}
use ds_service.TaskManager.Priority.{set_priority}
use ds_service.TaskManager.Reads.{get_priority}
use ds_service.TaskManager.State.{TaskManager, state_at, enqueue}
use ds_service.TaskState.{ready, same}
use ds_service.ThirdParty.{ThirdParty}

module _ (P : ThirdParty) where
  -- The priorities and the index after task_set_priority of a known task.
  priorities :
      (m : TaskManager P) (s : TaskSetPriorityRequest) (index : ℕ)
      → P.find m.task_index s.task_id ≡ some index
      → ((set_priority P m s).1.tasks.priority ≡ set m.tasks.priority index s.priority)
        × ((set_priority P m s).1.task_index ≡ m.task_index)
  unfolding set_priority enqueue
  priorities m s index e = elim (Bool-cases (same (state_at m.tasks index) ready)) [
    | inl r ↦ rw (e, set_priority, r) (refl, refl)
    | inr r ↦ rw (e, set_priority, r) (refl, refl)
  ]

  -- In a state that has the invariant, task_get_priority of a task reports the priority that
  -- task_set_priority gave it, and for every other task what it reported before. Where the task of the
  -- task_set_priority is unknown, no report changes.
  pub get_priority-set_priority :
      (m : TaskManager P) (s : TaskSetPriorityRequest) (g : TaskGetPriorityRequest)
      → WellFormed P m
      → get_priority P (set_priority P m s).1 g ≡ elim (P.find m.task_index s.task_id) [
        | none ↦ get_priority P m g
        | some index ↦
            if s.task_id == g.task_id
            then ok (record { priority = s.priority })
            else get_priority P m g
      ]
  unfolding get_priority
  get_priority-set_priority m s g w = elim (Option-cases (P.find m.task_index s.task_id)) [
    | inl e ↦ (unfold set_priority in rw (e, set_priority) refl)
    | inr (index, e) ↦
        let (column, same_index) = priorities m s index e in
        elim (Option-cases (P.find m.task_index g.task_id)) [
          | inl unknown ↦ ground (arith, e, unknown, column, same_index, eq_iff s.task_id g.task_id)
          | inr (i, known) ↦ ground (
            arith,
            e,
            known,
            column,
            same_index,
            eq_iff s.task_id g.task_id,
            w.indexed.sound s.task_id index e,
            w.indexed.sound g.task_id i known,
            w.aligned.priority,
            get_or-set m.tasks.priority index s.priority i zero_double,
          )
        ]
  ]
