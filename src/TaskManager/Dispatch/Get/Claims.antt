-- ===== src/TaskManager/Dispatch/Get/Claims.antt =====
-- TaskManager::get over its list of queues.
use ds_service.Base.{
  ℕ, ◌≡◌, ◌≢◌, refl, ap, sym, subst, String, none, some, List, [], ◌∷◌, length, arith, inl, inr,
  Option-cases,
}
use ds_service.Messages.{TaskGetRequest}
use ds_service.TaskManager.Dispatch.{entry_of, entries_at, IsQueuedBut, IsQueued}
use ds_service.TaskManager.Dispatch.Carry.{end_not_ready}
use ds_service.TaskManager.Dispatch.Get.{
  claimed_table, first, Answers, popped, Idle-if, popped-IsQueued, Answers-later, found-IsBest,
  claim-IsQueued,
}
use ds_service.TaskManager.Dispatch.Get.Pop.{alive_entry, pop_none, pop_some}
use ds_service.TaskManager.Get.{pop_usable, get_from, get}
use ds_service.TaskManager.Graph.{WellFormed}
use ds_service.TaskManager.Queue.{TaskQueue, TaskQueueEntry}
use ds_service.TaskManager.Queue.Entries.{In}
use ds_service.TaskManager.State.{TaskManager, state_at}
use ds_service.TaskState.{ready}
use ds_service.ThirdParty.{ThirdParty}

module _ (P : ThirdParty) (worker_id : String) (n : ℕ) where
  -- Nothing in the queue is usable: the loop goes on to the next.
  pop_all-IsQueued :
      (m : TaskManager P) (qname : String) (q : TaskQueue)
      → P.find m.queue qname ≡ some q
      → (pop_usable m.tasks q).0 ≡ none
      → state_at m.tasks n ≢ ready
      → IsQueuedBut P n m
      → IsQueuedBut P n (popped P m qname q)
  pop_all-IsQueued m qname q here nothing out v =
      popped-IsQueued P m n n qname q here
        (λ i _ s inside. absurd (
          ground (
            arith,
            pop_none m.tasks q (entry_of m.tasks i) nothing inside,
            alive_entry m.tasks i s,
          )))
        out v

  -- The entry of one row is taken out.
  pop_one-IsQueued :
      (m : TaskManager P) (qname : String) (q : TaskQueue) (e : TaskQueueEntry)
      → P.find m.queue qname ≡ some q
      → (pop_usable m.tasks q).0 ≡ some e
      → state_at m.tasks n ≢ ready
      → IsQueuedBut P n m
      → IsQueuedBut P e.index (popped P m qname q)
  pop_one-IsQueued m qname q e here found out v =
      popped-IsQueued P m e.index n qname q here
        (λ i other s inside.
          elim (pop_some m.tasks q e (entry_of m.tasks i) found inside (alive_entry m.tasks i s)) [
            | inl itself ↦ absurd (other (ap (λ (x : TaskQueueEntry). x.index) itself))
            | inr left ↦ left
          ])
        out v

  get_from-lem :
      (m : TaskManager P) (names : List String)
      → state_at m.tasks n ≢ ready
      → IsQueuedBut P n m
      → Answers P m.tasks worker_id names (get_from P m worker_id names)
        × IsQueuedBut P n (get_from P m worker_id names).1
        × ((get_from P m worker_id names).1.tasks.task_id ≡ m.tasks.task_id)
  unfolding get_from claimed_table
  get_from-lem m [] out v = (inr (tt, refl, refl), v, refl)
  get_from-lem m (qname ∷ names) out v = elim (Option-cases (P.find m.queue qname)) [
    | inl e ↦
        let (answers, kept, ids) = get_from-lem m names out v in
        let bare : entries_at P m.queue qname ≡ [] = ground (arith, e) in
        let idle = Idle-if P m qname n out v (λ x inside. absurd (subst (In x) bare inside)) in
        rw (e, get_from)
          (
            Answers-later P m.tasks worker_id qname names (get_from P m worker_id names) idle
                answers,
            kept,
            ids,
          )
    | inr (q, e) ↦ elim (Option-cases (pop_usable m.tasks q).0) [
      | inl nothing ↦
          let (answers, kept, ids) =
            get_from-lem (popped P m qname q) names out
              (pop_all-IsQueued m qname q e nothing out v) in
          let here : entries_at P m.queue qname ≡ q = ground (arith, e) in
          let idle =
            Idle-if P m qname n out v
              (λ x inside. pop_none m.tasks q x nothing (subst (In x) here inside)) in
          rw (e, get_from, nothing)
            (
              Answers-later P m.tasks worker_id qname names
                  (get_from P (popped P m qname q) worker_id names) idle answers,
              kept,
              ids,
            )
      | inr (entry, found) ↦
          let (itself, best) = found-IsBest P m n qname q entry e found out v in
          rw (e, get_from, found)
            (
              inl (entry.index, qname, first names, best, refl, refl),
              claim-IsQueued P (popped P m qname q) entry n worker_id best.is_ready
                  (pop_one-IsQueued m qname q entry e found out v),
              refl,
            )
    ]
  ]

module _ (P : ThirdParty) where
  pub get-Answers :
      (m : TaskManager P) (request : TaskGetRequest)
      → WellFormed P m
      → IsQueued P m
      → Answers P m.tasks request.worker_id request.queue (get P m request)
  unfolding get
  get-Answers m request w v =
      (get_from-lem P request.worker_id (length m.tasks.task_id) m request.queue
        (end_not_ready m.tasks _ w.aligned (omega arith)) v).0

  pub get-IsQueued :
      (m : TaskManager P) (request : TaskGetRequest)
      → WellFormed P m
      → IsQueued P m
      → IsQueued P (get P m request).1
  unfolding get
  get-IsQueued m request w v =
      let (answers, kept, ids) =
        get_from-lem P request.worker_id (length m.tasks.task_id) m request.queue
          (end_not_ready m.tasks _ w.aligned (omega arith)) v in
      subst (λ k. IsQueuedBut P k (get P m request).1) (sym (ap length ids)) kept
