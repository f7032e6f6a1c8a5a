-- ===== src/TaskManager/Done.antt =====
-- TaskManager::done.
pub mod Releases
pub mod Failure
use ds_service.Base.{
  ℕ, zero, suc, ◌-◌, ◌^◌, not, ◌&&◌, none, some, List, [], ◌∷◌, ◌==◌, eqb, get_or, set,
  if◌then◌else◌,
}
use ds_service.Error.{Result, ok, make_error, failed_precondition}
use ds_service.Messages.{TaskDoneRequest}
use ds_service.TaskManager.Propagate.{propagate_to_children}
use ds_service.TaskManager.Reads.{not_found_error, not_running_error}
use ds_service.TaskManager.State.{TaskManager, state_at, children_at, pending_at, enqueue}
use ds_service.TaskState.{waiting, ready, running, finished, failed, canceled, same}
use ds_service.ThirdParty.{ThirdParty}

-- `count--` on a size_t
unfoldable pub decrement : ℕ → ℕ
decrement zero = 2 ^ 64 - 1
decrement (suc n) = n

module _ (P : ThirdParty) where
  -- the body of the loop over the children of a finished row
  unfoldable pub release_child : TaskManager P → ℕ → TaskManager P
  unfolding decrement
  release_child m child =
      let count = decrement (pending_at m.tasks child) in
      let counted = record m.tasks { pending_parents = set m.tasks.pending_parents child count } in
      if eqb count 0 && same (state_at m.tasks child) waiting
      then enqueue P (record m { tasks = record counted { state = set m.tasks.state child ready } })
          child
      else record m { tasks = counted }

  unfoldable pub release_children : TaskManager P → List ℕ → TaskManager P
  unfolding release_child
  release_children m [] = m
  release_children m (child ∷ children) = release_children (release_child m child) children

  -- `done` once the report is accepted
  unfoldable pub finish : TaskManager P → ℕ → TaskDoneRequest → TaskManager P
  unfolding release_children
  finish m index request =
      let reported = record m.tasks { output = set m.tasks.output index request.output } in
      if request.failed
      then record m {
        tasks =
            propagate_to_children P
              (record reported {
                state = set m.tasks.state index failed;
                terminal_origin = set m.tasks.terminal_origin index index;
              })
              index failed index;
      }
      else release_children
          (record m { tasks = record reported { state = set m.tasks.state index finished } })
          (children_at m.tasks index)

  unfoldable pub done : TaskManager P → TaskDoneRequest → Result (Unit {0}) × TaskManager P
  unfolding not_found_error not_running_error finish
  done m request = elim (P.find m.task_index request.task_id) [
    | none ↦ (not_found_error P request.task_id, m)
    | some index ↦
        if same (state_at m.tasks index) canceled
        then (ok tt, m)
        else if not (same (state_at m.tasks index) running)
        then (not_running_error P request.task_id, m)
        else if not (get_or m.tasks.worker_id index "" == request.worker_id)
        then (
          make_error failed_precondition (
              P.format "Task with ID = {} is held by worker {}, not {}."
                (request.task_id ∷ get_or m.tasks.worker_id index "" ∷ request.worker_id ∷ [])),
          m,
        )
        else (ok tt, finish m index request)
  ]
