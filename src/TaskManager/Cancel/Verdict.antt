-- ===== src/TaskManager/Cancel/Verdict.antt =====
-- What TaskManager::cancel answers and does, on each of its branches.
use ds_service.Base.{
  ℕ, ◌≡◌, ◌≢◌, ◌⊎◌, refl, sym, subst, inl, inr, true, false, none, some, get_or, Bool-cases,
  Option-cases, arith, get_or-set, ◌<◌, length,
}
use ds_service.Error.{Error, Result, ok, unexpected, not_found}
use ds_service.Messages.{TaskCancelRequest, TaskCancelResponse}
use ds_service.TaskManager.Cancel.{cancel}
use ds_service.TaskManager.Graph.{WellFormed}
use ds_service.TaskManager.Graph.Passed.{Passed, Ending-Passed, Ending-own}
use ds_service.TaskManager.Keeps.Cancel.{canceled_row, cancel-Ending}
use ds_service.TaskManager.Propagate.{end_row, terminal_output, propagate_to_children}
use ds_service.TaskManager.Propagate.Cells.{IsKept, live_in_range}
use ds_service.TaskManager.Reads.{not_found_error}
use ds_service.TaskManager.State.{TaskTable, TaskManager, IsAligned, state_at, origin_at}
use ds_service.TaskState.{canceled, same, is_live, undefined}
use ds_service.ThirdParty.{ThirdParty}

-- The row `index` is canceled by itself, and what that makes of every row.
pub record CancelsRow (t u : TaskTable) (index : ℕ) : Type 0 where
  pub state : state_at u index ≡ canceled
  pub output : get_or u.output index "" ≡ "Task canceled"
  pub worker_id : get_or u.worker_id index "" ≡ ""
  pub origin : origin_at u index ≡ index
  pub others : (j : ℕ) → j ≢ index → Passed canceled "Task canceled" index t u j

module _ (P : ThirdParty) where
  row-IsKept : (t : TaskTable) (index j : ℕ) → j ≢ index → IsKept t (canceled_row P t index) j
  unfolding canceled_row end_row
  row-IsKept t index j other = record {
    state = ground (arith, other, get_or-set t.state index canceled j undefined);
    output =
        ground (arith, other, get_or-set t.output index (terminal_output P t canceled index) j "");
    worker_id = ground (arith, other, get_or-set t.worker_id index "" j "");
    origin = ground (arith, other, get_or-set t.terminal_origin index index j 0);
  }

  pub cancel_row :
      (t : TaskTable) (index : ℕ)
      → IsAligned t
      → is_live (state_at t index) ≡ true
      → CancelsRow t (propagate_to_children P (canceled_row P t index) index canceled index) index
  unfolding canceled_row end_row terminal_output same is_live
  cancel_row t index a live =
      let e = cancel-Ending P t index a live in
      let own = Ending-own e refl (row-IsKept t index) in
      let inside : index < length t.task_id = ground (arith, a, live_in_range t.state index live) in
      record {
        state =
            ground (
              arith,
              own.state,
              a.state,
              inside,
              get_or-set t.state index canceled index undefined,
            );
        output = ground (
          arith,
          own.output,
          a.output,
          inside,
          get_or-set t.output index (terminal_output P t canceled index) index "",
        );
        worker_id =
            ground
              (arith, own.worker_id, a.worker_id, inside, get_or-set t.worker_id index "" index "");
        origin = ground (
          arith,
          own.origin,
          a.terminal_origin,
          inside,
          get_or-set t.terminal_origin index index index 0,
        );
        others = Ending-Passed e refl (row-IsKept t index);
      }

  abbrev pub Refuses : TaskManager P → Result TaskCancelResponse × TaskManager P → Type 0
  Refuses m r = ((e : Error) × (r.0 ≡ unexpected e) × (e.code ≡ not_found)) × (r.1 ≡ m)

  abbrev pub Cancels : TaskManager P → TaskCancelRequest → Type 0
  Cancels m request = elim (P.find m.task_index request.task_id) [
    | none ↦ Refuses m (cancel P m request)
    | some index ↦
        ((is_live (state_at m.tasks index) ≡ false)
          × ((cancel P m request).0 ≡ ok (record { success = false }))
          × ((cancel P m request).1 ≡ m))
        ⊎ ((is_live (state_at m.tasks index) ≡ true)
            × ((cancel P m request).0 ≡ ok (record { success = true }))
            × CancelsRow m.tasks (cancel P m request).1.tasks index)
  ]

  cancel-unknown :
      (m : TaskManager P) (request : TaskCancelRequest)
      → P.find m.task_index request.task_id ≡ none
      → cancel P m request ≡ (not_found_error P request.task_id, m)
  unfolding cancel
  cancel-unknown m request e = rw (e, cancel) refl

  -- In a state that has the invariant, task_cancel of an unknown task is refused with NotFound and
  -- changes nothing; of a task that has ended, it returns false and changes nothing. Of a task that is
  -- Waiting, Ready or Running it returns true, and the task is Canceled, with no worker and itself as
  -- the origin. Of the other rows, exactly those below it that could still run are Canceled with it,
  -- lose their worker, and name it as the origin; each other row keeps its state, its output, its
  -- worker and its origin.
  pub cancel-Cancels :
      (m : TaskManager P) (request : TaskCancelRequest) → WellFormed P m → Cancels m request
  unfolding cancel canceled_row not_found_error
  cancel-Cancels m request w = elim (Option-cases (P.find m.task_index request.task_id)) [
    | inl e ↦
        rw (Cancels, e)
          (subst (Refuses m) (sym (cancel-unknown m request e)) ((_, refl, refl), refl))
    | inr (index, e) ↦ elim (Bool-cases (is_live (state_at m.tasks index))) [
      | inr over ↦
          rw (Cancels, e) (inl (over, (rw (e, cancel, over) refl), rw (e, cancel, over) refl))
      | inl live ↦
          rw (Cancels, e)
            (inr (
              live,
              (rw (e, cancel, live) refl),
              rw (e, cancel, live) (cancel_row m.tasks index w.aligned live),
            ))
    ]
  ]
