-- ===== src/Tests/Endings.antt =====
-- Two tasks, of which the first is canceled or fails.
use ds_service.Base.{◌≡◌, refl, true}
use ds_service.Error.{ok}
use ds_service.Messages.{TaskCancelRequest, TaskDoneRequest}
use ds_service.TaskManager.Cancel.Verdict.{Cancels, cancel-Cancels}
use ds_service.TaskManager.Done.{done}
use ds_service.TaskManager.Done.Failure.{FailsRow, dependency_failed, done-failed}
use ds_service.TaskManager.Graph.Origins.{AllRooted}
use ds_service.TaskManager.Steps.{after, dones, next, reachable-WellFormed}
use ds_service.TaskManager.Steps.Origins.{reachable-AllRooted}
use ds_service.Tests.Answers.{a_is_row_zero, a_runs, w_has_a}
use ds_service.Tests.Library.{library}
use ds_service.Tests.Tasks.{three, to_three, a_done}

abbrev cancel_a : TaskCancelRequest
cancel_a = record { task_id = "a" }

cancel-Cancels_example : Cancels library three cancel_a
cancel-Cancels_example =
    cancel-Cancels library three cancel_a (reachable-WellFormed library three to_three)

abbrev a_failed : TaskDoneRequest
a_failed = record a_done { failed = true }

done-failed_example :
    ((done library three a_failed).0 ≡ ok tt)
    × FailsRow "y"
        (dependency_failed library three.tasks 0)
        three.tasks
        (done library three a_failed).1.tasks
        0
done-failed_example =
    done-failed library three a_failed 0 (reachable-WellFormed library three to_three) a_is_row_zero
      a_runs w_has_a refl

reachable-AllRooted_example : AllRooted library (after library three (dones a_failed)).tasks
reachable-AllRooted_example =
    reachable-AllRooted library (after library three (dones a_failed))
      (next to_three (dones a_failed))
