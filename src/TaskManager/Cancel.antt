-- ===== src/TaskManager/Cancel.antt =====
-- TaskManager::cancel.
pub mod Verdict
use ds_service.Base.{false, true, not, none, some, if◌then◌else◌}
use ds_service.Error.{Result, ok}
use ds_service.Messages.{TaskCancelRequest, TaskCancelResponse}
use ds_service.TaskManager.Propagate.{terminal_output, end_row, propagate_to_children}
use ds_service.TaskManager.Reads.{not_found_error}
use ds_service.TaskManager.State.{TaskManager, state_at}
use ds_service.TaskState.{canceled, is_live}
use ds_service.ThirdParty.{ThirdParty}

module _ (P : ThirdParty) where
  unfoldable pub cancel :
      TaskManager P → TaskCancelRequest → Result TaskCancelResponse × TaskManager P
  unfolding not_found_error end_row
  cancel m request = elim (P.find m.task_index request.task_id) [
    | none ↦ (not_found_error P request.task_id, m)
    | some index ↦
        if not (is_live (state_at m.tasks index))
        then (ok (record { success = false }), m)
        else let ended =
            end_row m.tasks canceled (terminal_output P m.tasks canceled index) index index in
          (
            ok (record { success = true }),
            record m { tasks = propagate_to_children P ended index canceled index },
          )
  ]
