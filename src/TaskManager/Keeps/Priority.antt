-- ===== src/TaskManager/Keeps/Priority.antt =====
-- TaskManager::enqueue and TaskManager::set_priority keep the invariant.
use ds_service.Base.{ℕ, refl, inl, inr, Bool-cases, Option-cases, arith, length-set, set}
use ds_service.Messages.{TaskSetPriorityRequest}
use ds_service.TaskManager.Graph.{WellFormed}
use ds_service.TaskManager.Keeps.Same.{IsGraph-same, IsIndexed-same}
use ds_service.TaskManager.Priority.{set_priority}
use ds_service.TaskManager.State.{TaskManager, IsAligned, state_at, enqueue}
use ds_service.TaskState.{ready, same}
use ds_service.ThirdParty.{ThirdParty}

module _ (P : ThirdParty) where
  enqueue-IsAligned :
      (m : TaskManager P) (i : ℕ) → IsAligned m.tasks → IsAligned (enqueue P m i).tasks
  unfolding enqueue
  enqueue-IsAligned m i a = ground (arith, length-set m.tasks.seq i (enqueue P m i).next_seq)

  pub enqueue-WellFormed :
      (m : TaskManager P) (i : ℕ) → WellFormed P m → WellFormed P (enqueue P m i)
  unfolding enqueue
  enqueue-WellFormed m i w = record {
    aligned = enqueue-IsAligned m i w.aligned;
    graph = IsGraph-same m.tasks _ refl refl refl refl w.graph;
    indexed = IsIndexed-same P m _ refl refl w.indexed;
  }

  pub set_priority-WellFormed :
      (m : TaskManager P) (request : TaskSetPriorityRequest)
      → WellFormed P m
      → WellFormed P (set_priority P m request).1
  unfolding set_priority
  set_priority-WellFormed m request w = elim (Option-cases (P.find m.task_index request.task_id)) [
    | inl e ↦ rw (e, set_priority) w
    | inr (index, e) ↦
        let updated : TaskManager P = record m {
          tasks = record m.tasks { priority = set m.tasks.priority index request.priority };
        } in
        let kept : WellFormed P updated = record {
          aligned = ground (arith, w.aligned, length-set m.tasks.priority index request.priority);
          graph = IsGraph-same m.tasks _ refl refl refl refl w.graph;
          indexed = IsIndexed-same P m _ refl refl w.indexed;
        } in
        elim (Bool-cases (same (state_at m.tasks index) ready)) [
          | inl r ↦ rw (e, set_priority, r) (enqueue-WellFormed updated index kept)
          | inr n ↦ rw (e, set_priority, n) kept
        ]
  ]
