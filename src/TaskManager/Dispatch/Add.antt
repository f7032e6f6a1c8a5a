-- ===== src/TaskManager/Dispatch/Add.antt =====
-- TaskManager::add keeps the invariant of the queues.
use ds_service.Base.{
  ℕ, suc, ◌+◌, ◌^◌, ◌<◌, ◌≡◌, refl, ◌∙◌, sym, false, List, [], length, eqb, arith, inl, inr,
  Bool-cases, Option-cases, subst, get_or-past, length-push_back, get_or-push_back,
}
use ds_service.Double.{is_nan, zero_double}
use ds_service.Error.{ok, Result-cases}
use ds_service.Messages.{TaskAddRequest}
use ds_service.TaskManager.Add.{no_parents, scan_parents, decide, push_row, resolve, add_row, add}
use ds_service.TaskManager.Dispatch.{IsQueuedBut, IsQueued}
use ds_service.TaskManager.Dispatch.Carry.{Carries, carry, leave_out}
use ds_service.TaskManager.Dispatch.Enqueue.{enqueue-IsQueued}
use ds_service.TaskManager.Dispatch.Requests.{same-ready, not_ready}
use ds_service.TaskManager.Graph.{WellFormed}
use ds_service.TaskManager.Graph.Owed.{occ}
use ds_service.TaskManager.Keeps.Add.{resolve_in_range}
use ds_service.TaskManager.Keeps.Add.Table.{added_table, added-IsAligned}
use ds_service.TaskManager.State.{TaskTable, TaskManager, IsAligned, state_at, priority_at, enqueue}
use ds_service.TaskState.{TaskState, ready, undefined, same}
use ds_service.ThirdParty.{ThirdParty, count}

-- The table with a row more, but at that row.
added-Carries :
    (P : ThirdParty) (t : TaskTable) (request : TaskAddRequest) (s : TaskState) (pending origin : ℕ)
    (rows : List (List ℕ))
    → IsAligned t
    → is_nan request.priority ≡ false
    → ((j : ℕ) → is_nan (priority_at t j) ≡ false)
    → Carries
        (length t.task_id)
        t
        (record (push_row P t request s pending origin) { children = rows })
unfolding push_row count
added-Carries P t request s pending origin rows a number numbers = record {
  numbers =
      λ j. ground (arith, get_or-push_back t.priority request.priority j zero_double, numbers j);
  priority = λ j nk.
      ground (arith, get_or-push_back t.priority request.priority j zero_double, a.priority);
  seq = λ j nk. ground (arith, get_or-push_back t.seq 0 j 0, a.seq);
  queues = λ j nk. ground (arith, get_or-push_back t.queues request.queue j [], a.queues);
  ready_before = λ j nk h. ground (arith, get_or-push_back t.state s j undefined, a.state);
  listed = λ j q h. elim (Bool-cases (eqb j (length t.queues))) [
    | inl hit ↦ absurd (ground (arith, get_or-past t.queues j []))
    | inr miss ↦ rw (get_or-push_back t.queues request.queue j [], miss) h
  ];
}

module _ (P : ThirdParty) where
  add_row-IsQueued :
      (m : TaskManager P) (request : TaskAddRequest) (parents : List ℕ)
      → resolve P m.task_index request.parent_task_ids ≡ ok parents
      → WellFormed P m
      → is_nan request.priority ≡ false
      → m.next_seq + 1 < 2 ^ 64
      → IsQueued P m
      → IsQueued P (add_row P m request parents)
  unfolding add_row added_table enqueue
  add_row-IsQueued m request parents resolved w number room v =
      let near = λ (p : ℕ) (h : 0 < occ p parents).
        resolve_in_range P m request.parent_task_ids parents p w.indexed resolved h in
      let n = length m.tasks.task_id in
      let added : TaskManager P = record m {
        tasks = added_table P m.tasks request parents w.aligned w.graph near;
        task_index = P.assign m.task_index request.task_id n;
      } in
      let kept : IsQueuedBut P n added =
        carry P n m added refl refl
          (added-Carries P m.tasks request _ _ _ _ w.aligned number v.numbers) v in
      let new_state = (decide m.tasks n (scan_parents m.tasks parents no_parents)).0 in
      let grown = length-push_back m.tasks.task_id request.task_id in
      let at_end_is : state_at added.tasks n ≡ new_state =
        ground (arith, get_or-push_back m.tasks.state new_state n undefined, w.aligned) in
      elim (Bool-cases (same new_state ready)) [
        | inl r ↦ rw r (
            subst (λ k. IsQueuedBut P k (enqueue P added n)) (sym grown)
              (enqueue-IsQueued P added n (suc n)
                (added-IsAligned P m.tasks request parents w.aligned w.graph near)
                (at_end_is ∙ same-ready P _ r) room kept))
        | inr r ↦ rw r (
            subst (λ k. IsQueuedBut P k added) (sym grown)
              (leave_out P n (suc n) added (λ h. not_ready P _ r (sym at_end_is ∙ h)) kept))
      ]

  pub add-IsQueued :
      (m : TaskManager P) (request : TaskAddRequest)
      → WellFormed P m
      → is_nan request.priority ≡ false
      → m.next_seq + 1 < 2 ^ 64
      → IsQueued P m
      → IsQueued P (add P m request).1
  unfolding add
  add-IsQueued m request w number room v =
      elim (Option-cases (P.find m.task_index request.task_id)) [
        | inr (i, e) ↦ rw (e, add) v
        | inl e ↦ elim (Result-cases (resolve P m.task_index request.parent_task_ids)) [
          | inr (x, r) ↦ rw (e, r, add) v
          | inl (parents, r) ↦ rw (e, r, add) (add_row-IsQueued m request parents r w number room v)
        ]
      ]
