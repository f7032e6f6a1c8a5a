-- ===== src/TaskManager/Keeps/Cancel.antt =====
-- TaskManager::cancel keeps the invariant.
use ds_service.Base.{ℕ, ◌≡◌, refl, inl, inr, true, Bool-cases, Option-cases}
use ds_service.Messages.{TaskCancelRequest}
use ds_service.TaskManager.Cancel.{cancel}
use ds_service.TaskManager.Graph.{WellFormed, is_doomed}
use ds_service.TaskManager.Graph.Ended.{Ending}
use ds_service.TaskManager.Keeps.Same.{Ending-WellFormed}
use ds_service.TaskManager.Propagate.{terminal_output, end_row, propagate_to_children}
use ds_service.TaskManager.Propagate.Cells.{end_row-IsAligned}
use ds_service.TaskManager.Propagate.Outcomes.{propagate-Propagated}
use ds_service.TaskManager.State.{TaskTable, TaskManager, IsAligned, state_at}
use ds_service.TaskState.{canceled, is_live}
use ds_service.ThirdParty.{ThirdParty}

module _ (P : ThirdParty) where
  unfoldable pub canceled_row : TaskTable → ℕ → TaskTable
  canceled_row t index = end_row t canceled (terminal_output P t canceled index) index index

  pub cancel-Ending :
      (t : TaskTable) (index : ℕ)
      → IsAligned t
      → is_live (state_at t index) ≡ true
      → Ending canceled
          (terminal_output P (canceled_row t index) canceled index)
          index
          index
          t
          (canceled_row t index)
          (propagate_to_children P (canceled_row t index) index canceled index)
  unfolding canceled_row end_row is_doomed is_live
  cancel-Ending t index a live = record {
    doomed = refl;
    live = live;
    aligned = a;
    task_id = refl;
    state = refl;
    pending_parents = refl;
    children = refl;
    propagated =
        propagate-Propagated P (canceled_row t index) index canceled index refl
          (end_row-IsAligned canceled _ index t index a);
  }

  pub cancel-WellFormed :
      (m : TaskManager P) (request : TaskCancelRequest)
      → WellFormed P m
      → WellFormed P (cancel P m request).1
  unfolding cancel canceled_row
  cancel-WellFormed m request w = elim (Option-cases (P.find m.task_index request.task_id)) [
    | inl e ↦ rw (e, cancel) w
    | inr (index, e) ↦ elim (Bool-cases (is_live (state_at m.tasks index))) [
      | inl live ↦
          rw (e, cancel, live)
            (Ending-WellFormed P m _ refl (cancel-Ending m.tasks index w.aligned live)
              (end_row-IsAligned canceled _ index m.tasks index w.aligned) w)
      | inr over ↦ rw (e, cancel, over) w
    ]
  ]
