-- ===== src/TaskManager/Dispatch/Endings.antt =====
-- TaskManager::cancel, and a report of failure, keep the invariant of the queues.
use ds_service.Base.{
  ℕ, ◌≡◌, refl, ap, sym, subst, String, false, length, arith, inl, inr, Bool-cases, Option-cases,
}
use ds_service.Double.{is_nan}
use ds_service.Messages.{TaskCancelRequest}
use ds_service.TaskManager.Cancel.{cancel}
use ds_service.TaskManager.Dispatch.{IsQueuedBut, IsQueued}
use ds_service.TaskManager.Dispatch.Carry.{Carries, carry}
use ds_service.TaskManager.Graph.{WellFormed, is_doomed}
use ds_service.TaskManager.Graph.Ended.{Ending, state_cases}
use ds_service.TaskManager.Keeps.Cancel.{canceled_row, cancel-Ending}
use ds_service.TaskManager.State.{TaskTable, TaskManager, state_at, priority_at}
use ds_service.TaskState.{TaskState, is_live}
use ds_service.ThirdParty.{ThirdParty}

pub Ending-Carries :
    {s : TaskState} {text : String} {origin index : ℕ} {t t' u : TaskTable} (k : ℕ)
    → t'.priority ≡ t.priority
    → t'.seq ≡ t.seq
    → t'.queues ≡ t.queues
    → Ending s text origin index t t' u
    → ((j : ℕ) → is_nan (priority_at t j) ≡ false)
    → Carries k t u
unfolding is_doomed
Ending-Carries k priority seq queues e numbers = record {
  numbers = λ j. rw (e.propagated.same_graph.priority, priority) (numbers j);
  priority = λ j _. rw (e.propagated.same_graph.priority, priority);
  seq = λ j _. rw (e.propagated.same_graph.seq, seq);
  queues = λ j _. rw (e.propagated.same_graph.queues, queues);
  ready_before = λ j _ h. ground (arith, state_cases e j, e.doomed);
  listed = λ j q h. rw (e.propagated.same_graph.queues, queues) h;
}

module _ (P : ThirdParty) where
  pub same_rows :
      (m m' : TaskManager P)
      → m'.tasks.task_id ≡ m.tasks.task_id
      → IsQueuedBut P (length m.tasks.task_id) m'
      → IsQueued P m'
  same_rows m m' ids w = subst (λ n. IsQueuedBut P n m') (sym (ap length ids)) w

  pub cancel-IsQueued :
      (m : TaskManager P) (request : TaskCancelRequest)
      → WellFormed P m
      → IsQueued P m
      → IsQueued P (cancel P m request).1
  unfolding cancel canceled_row
  cancel-IsQueued m request w v = elim (Option-cases (P.find m.task_index request.task_id)) [
    | inl e ↦ rw (e, cancel) v
    | inr (index, e) ↦ elim (Bool-cases (is_live (state_at m.tasks index))) [
      | inr over ↦ rw (e, cancel, over) v
      | inl live ↦
          let x = cancel-Ending P m.tasks index w.aligned live in
          rw (e, cancel, live)
            (same_rows m _ x.propagated.same_graph.task_id (
              carry P (length m.tasks.task_id) m _ refl refl
                (Ending-Carries (length m.tasks.task_id) refl refl refl x v.numbers) v))
    ]
  ]
