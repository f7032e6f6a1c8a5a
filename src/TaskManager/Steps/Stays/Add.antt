-- ===== src/TaskManager/Steps/Stays/Add.antt =====
-- TaskManager::add leaves the rows that have ended as they are.
use ds_service.Base.{ℕ, inl, inr, List, length, Bool-cases, Option-cases, arith, length-push_back}
use ds_service.Error.{Result-cases}
use ds_service.Messages.{TaskAddRequest}
use ds_service.TaskManager.Add.{no_parents, scan_parents, decide, resolve, push_row, add_row, add}
use ds_service.TaskManager.State.{TaskTable, TaskManager, IsAligned, enqueue}
use ds_service.TaskState.{TaskState, ready, undefined, same}
use ds_service.ThirdParty.{ThirdParty}
use ds_service.TaskManager.Steps.Stays.{Stays, Stays-refl, get_or-grow}

module _ (P : ThirdParty) where
  pushed-Stays :
      (t : TaskTable) (request : TaskAddRequest) (s : TaskState) (pending origin : ℕ)
      (rows : List (List ℕ))
      → IsAligned t
      → Stays t (record (push_row P t request s pending origin) { children = rows })
  unfolding push_row
  pushed-Stays t request s pending origin rows a = record {
    rows = omega (arith, length-push_back t.task_id request.task_id);
    order = λ i h. ground (arith, get_or-grow t.state s i undefined (omega (arith, a.state)));
    worker = λ i h e r. get_or-grow t.worker_id _ i "" (omega (arith, a.worker_id));
    state = λ i h e. get_or-grow t.state _ i undefined (omega (arith, a.state));
    output = λ i h e. get_or-grow t.output _ i "" (omega (arith, a.output));
  }

  add_row-Stays :
      (m : TaskManager P) (request : TaskAddRequest) (parents : List ℕ)
      → IsAligned m.tasks
      → Stays m.tasks (add_row P m request parents).tasks
  unfolding add_row enqueue
  add_row-Stays m request parents a =
      let pushed = pushed-Stays m.tasks request _ _ _ _ a in
      elim (Bool-cases (
        same (decide m.tasks (length m.tasks.task_id) (scan_parents m.tasks parents no_parents)).0
          ready)) [
            | inl r ↦ rw r (record {
              rows = pushed.rows;
              order = pushed.order;
              worker = pushed.worker;
              state = pushed.state;
              output = pushed.output;
            })
            | inr r ↦ rw r pushed
          ]

  pub add-Stays :
      (m : TaskManager P) (request : TaskAddRequest)
      → IsAligned m.tasks
      → Stays m.tasks (add P m request).1.tasks
  unfolding add
  add-Stays m request a = elim (Option-cases (P.find m.task_index request.task_id)) [
    | inr (i, e) ↦ rw (e, add) (Stays-refl m.tasks)
    | inl e ↦ elim (Result-cases (resolve P m.task_index request.parent_task_ids)) [
      | inr (x, r) ↦ rw (e, r, add) (Stays-refl m.tasks)
      | inl (parents, r) ↦ rw (e, r, add) (add_row-Stays m request parents a)
    ]
  ]
