-- ===== src/TaskManager/Done/Failure.antt =====
-- What TaskManager::done does when a task has failed.
use ds_service.Base.{
  ℕ, ◌≡◌, ◌≢◌, refl, subst, sym, String, true, [], ◌∷◌, some, get_or, arith, get_or-set, ◌<◌,
  length,
}
use ds_service.Error.{Result, ok}
use ds_service.Messages.{TaskDoneRequest}
use ds_service.TaskManager.Done.{done, finish}
use ds_service.TaskManager.Done.Releases.{accepted}
use ds_service.TaskManager.Graph.{WellFormed}
use ds_service.TaskManager.Graph.Passed.{Passed, Ending-Passed, Ending-own}
use ds_service.TaskManager.Keeps.Done.{failed_row, fail-Ending, running_live}
use ds_service.TaskManager.Propagate.{terminal_output, propagate_to_children}
use ds_service.TaskManager.Propagate.Cells.{IsKept, live_in_range}
use ds_service.TaskManager.State.{TaskTable, TaskManager, IsAligned, state_at, origin_at}
use ds_service.TaskState.{running, failed, same, is_live, undefined}
use ds_service.ThirdParty.{ThirdParty}

-- The row `index` fails by itself with an output, `text` is the output of the rows that fail with it.
pub record FailsRow (output text : String) (t u : TaskTable) (index : ℕ) : Type 0 where
  pub state : state_at u index ≡ failed
  pub reported : get_or u.output index "" ≡ output
  pub worker_id : get_or u.worker_id index "" ≡ get_or t.worker_id index ""
  pub origin : origin_at u index ≡ index
  pub others : (j : ℕ) → j ≢ index → Passed failed text index t u j

module _ (P : ThirdParty) where
  row-IsKept :
      (t : TaskTable) (index : ℕ) (output : String) (j : ℕ)
      → j ≢ index
      → IsKept t (failed_row t index output) j
  unfolding failed_row
  row-IsKept t index output j other = record {
    state = ground (arith, other, get_or-set t.state index failed j undefined);
    output = ground (arith, other, get_or-set t.output index output j "");
    worker_id = refl;
    origin = ground (arith, other, get_or-set t.terminal_origin index index j 0);
  }

  abbrev pub dependency_failed : TaskTable → ℕ → String
  dependency_failed t index =
      P.format "Dependency failed (task_id={})" (get_or t.task_id index "" ∷ [])

  pub fail_row :
      (t : TaskTable) (index : ℕ) (output : String)
      → IsAligned t
      → is_live (state_at t index) ≡ true
      → FailsRow output
          (dependency_failed t index)
          t
          (propagate_to_children P (failed_row t index output) index failed index)
          index
  unfolding failed_row terminal_output same is_live
  fail_row t index output a live =
      let e = fail-Ending t index output a P live in
      let own = Ending-own e refl (row-IsKept t index output) in
      let inside : index < length t.task_id = ground (arith, a, live_in_range t.state index live) in
      record {
        state =
            ground
              (arith, own.state, a.state, inside, get_or-set t.state index failed index undefined);
        reported =
            ground (arith, own.output, a.output, inside, get_or-set t.output index output index "");
        worker_id = own.worker_id;
        origin = ground (
          arith,
          own.origin,
          a.terminal_origin,
          inside,
          get_or-set t.terminal_origin index index index 0,
        );
        others = Ending-Passed e refl (row-IsKept t index output);
      }

  finish_failed :
      (m : TaskManager P) (index : ℕ) (request : TaskDoneRequest)
      → request.failed ≡ true
      → (finish P m index request).tasks
        ≡ propagate_to_children P (failed_row m.tasks index request.output) index failed index
  unfolding finish failed_row
  finish_failed m index request e = rw e refl

  -- A worker reports that its Running task has failed, in a state that has the invariant. The report is
  -- accepted, and the task is Failed with the output of the report and itself as the origin. Of the
  -- other rows, exactly those below it that could still run fail with it: each names the task in its
  -- output and as its origin, and loses its worker. Each other row keeps its state, its output, its
  -- worker and its origin.
  pub done-failed :
      (m : TaskManager P) (request : TaskDoneRequest) (index : ℕ)
      → WellFormed P m
      → P.find m.task_index request.task_id ≡ some index
      → state_at m.tasks index ≡ running
      → get_or m.tasks.worker_id index "" ≡ request.worker_id
      → request.failed ≡ true
      → ((done P m request).0 ≡ ok tt)
        × FailsRow request.output
            (dependency_failed m.tasks index)
            m.tasks
            (done P m request).1.tasks
            index
  done-failed m request index w found run own e =
      subst
        (λ (r : Result (Unit {0}) × TaskManager P).
          (r.0 ≡ ok tt)
          × FailsRow request.output (dependency_failed m.tasks index) m.tasks r.1.tasks index)
        (sym (accepted P m request index found run own))
        (
          refl,
          subst (λ u. FailsRow request.output (dependency_failed m.tasks index) m.tasks u index)
              (sym (finish_failed m index request e))
              (fail_row m.tasks index request.output w.aligned
                (running_live P m index request.output w run)),
        )
