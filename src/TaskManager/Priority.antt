-- ===== src/TaskManager/Priority.antt =====
-- TaskManager::set_priority.
pub mod Reported
use ds_service.Base.{not, none, some, set, if◌then◌else◌}
use ds_service.Error.{Result, ok}
use ds_service.Messages.{TaskSetPriorityRequest}
use ds_service.TaskManager.Reads.{not_found_error}
use ds_service.TaskManager.State.{TaskManager, state_at, enqueue}
use ds_service.TaskState.{ready, same}
use ds_service.ThirdParty.{ThirdParty}

module _ (P : ThirdParty) where
  unfoldable pub set_priority :
      TaskManager P → TaskSetPriorityRequest → Result (Unit {0}) × TaskManager P
  unfolding not_found_error
  set_priority m request = elim (P.find m.task_index request.task_id) [
    | none ↦ (not_found_error P request.task_id, m)
    | some index ↦
        let updated : TaskManager P = record m {
          tasks = record m.tasks { priority = set m.tasks.priority index request.priority };
        } in
        if not (same (state_at m.tasks index) ready)
        then (ok tt, updated)
        else (ok tt, enqueue P updated index)
  ]
