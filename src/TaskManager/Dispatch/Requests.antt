-- ===== src/TaskManager/Dispatch/Requests.antt =====
-- TaskManager::done and set_priority keep the invariant of the queues.
use ds_service.Base.{
  ℕ, ◌+◌, ◌^◌, ◌<◌, ◌≡◌, ◌≢◌, refl, true, false, length, get_or, set, ◌==◌, arith, inl, inr,
  Bool-cases, Option-cases, get_or-set, length-set,
}
use ds_service.Double.{is_nan, zero_double}
use ds_service.Messages.{TaskDoneRequest, TaskSetPriorityRequest}
use ds_service.TaskManager.Dispatch.{IsQueuedBut, IsQueued}
use ds_service.TaskManager.Dispatch.Carry.{carry, leave_out, end_not_ready}
use ds_service.TaskManager.Dispatch.Endings.{Ending-Carries, same_rows}
use ds_service.TaskManager.Dispatch.Enqueue.{enqueue-IsQueued}
use ds_service.TaskManager.Dispatch.Release.{release_children-IsQueued}
use ds_service.TaskManager.Done.{finish, done}
use ds_service.TaskManager.Graph.{WellFormed}
use ds_service.TaskManager.Keeps.Done.{
  failed_row, finished_row, fail-Ending, finished_row-Releasing, running_live, same-running,
}
use ds_service.TaskManager.Keeps.Release.{release_children-index}
use ds_service.TaskManager.Priority.{set_priority}
use ds_service.TaskManager.State.{TaskManager, state_at, children_at, enqueue}
use ds_service.TaskState.{TaskState, ready, running, finished, canceled, undefined, same}
use ds_service.ThirdParty.{ThirdParty}

module _ (P : ThirdParty) where
  finish-IsQueued :
      (m : TaskManager P) (index : ℕ) (request : TaskDoneRequest)
      → state_at m.tasks index ≡ running
      → WellFormed P m
      → m.next_seq + length (children_at m.tasks index) < 2 ^ 64
      → IsQueued P m
      → IsQueued P (finish P m index request)
  unfolding finish failed_row finished_row
  finish-IsQueued m index request run w room v = elim (Bool-cases request.failed) [
    | inl e ↦
        let x =
          fail-Ending m.tasks index request.output w.aligned P
            (running_live P m index request.output w run) in
        rw e (
          same_rows P m _ x.propagated.same_graph.task_id (
            carry P (length m.tasks.task_id) m _ refl refl
              (Ending-Carries (length m.tasks.task_id) refl refl refl x v.numbers) v))
    | inr e ↦
        let ended : TaskManager P = record m {
          tasks = finished_row m.tasks index request.output;
        } in
        rw e (
          same_rows P m _ (release_children-index P ended (children_at m.tasks index)).1 (
            release_children-IsQueued P (length m.tasks.task_id) ended (children_at m.tasks index)
              (finished_row-Releasing P m index request.output w run) (omega arith) room
              (carry P (length m.tasks.task_id) m ended refl refl
                (record {
                  numbers = v.numbers;
                  priority = λ j _. refl;
                  seq = λ j _. refl;
                  queues = λ j _. refl;
                  ready_before =
                      λ j _ h. ground (arith, get_or-set m.tasks.state index finished j undefined);
                  listed = λ j q h. h;
                })
                v)))
  ]

  pub done-IsQueued :
      (m : TaskManager P) (request : TaskDoneRequest)
      → WellFormed P m
      → ((i : ℕ) → m.next_seq + length (children_at m.tasks i) < 2 ^ 64)
      → IsQueued P m
      → IsQueued P (done P m request).1
  unfolding done
  done-IsQueued m request w room v = elim (Option-cases (P.find m.task_index request.task_id)) [
    | inl e ↦ rw (e, done) v
    | inr (i, e) ↦ elim (Bool-cases (same (state_at m.tasks i) canceled)) [
      | inl c ↦ rw (e, done, c) v
      | inr nc ↦ elim (Bool-cases (same (state_at m.tasks i) running)) [
        | inr nr ↦ rw (e, done, nc, nr) v
        | inl r ↦ elim (Bool-cases (get_or m.tasks.worker_id i "" == request.worker_id)) [
          | inr other ↦ rw (e, done, nc, r, other) v
          | inl own ↦
              rw (e, done, nc, r, own)
                (finish-IsQueued m i request (same-running P _ r) w (room i) v)
        ]
      ]
    ]
  ]

  pub same-ready : (s : TaskState) → same s ready ≡ true → s ≡ ready
  unfolding same
  same-ready s h = ground arith

  pub not_ready : (s : TaskState) → same s ready ≡ false → s ≢ ready
  unfolding same
  not_ready s h e = ground arith

  pub set_priority-IsQueued :
      (m : TaskManager P) (request : TaskSetPriorityRequest)
      → WellFormed P m
      → is_nan request.priority ≡ false
      → m.next_seq + 1 < 2 ^ 64
      → IsQueued P m
      → IsQueued P (set_priority P m request).1
  unfolding set_priority enqueue
  set_priority-IsQueued m request w number room v =
      elim (Option-cases (P.find m.task_index request.task_id)) [
        | inl e ↦ rw (e, set_priority) v
        | inr (index, e) ↦
            let n = length m.tasks.task_id in
            let updated : TaskManager P = record m {
              tasks = record m.tasks { priority = set m.tasks.priority index request.priority };
            } in
            let without : IsQueuedBut P index updated =
              carry P index m updated refl refl
                (record {
                  numbers = λ j. ground (
                    arith,
                    get_or-set m.tasks.priority index request.priority j zero_double,
                    v.numbers j,
                  );
                  priority = λ j nk.
                      ground
                        (arith, get_or-set m.tasks.priority index request.priority j zero_double);
                  seq = λ j _. refl;
                  queues = λ j _. refl;
                  ready_before = λ j _ h. h;
                  listed = λ j q h. h;
                })
                (leave_out P n index m (end_not_ready m.tasks n w.aligned (omega arith)) v) in
            elim (Bool-cases (same (state_at m.tasks index) ready)) [
              | inl r ↦
                  rw (e, set_priority, r)
                    (enqueue-IsQueued P updated index n
                      (ground
                        (arith, w.aligned, length-set m.tasks.priority index request.priority))
                      (same-ready _ r) room without)
              | inr r ↦
                  rw (e, set_priority, r) (leave_out P index n updated (not_ready _ r) without)
            ]
      ]
