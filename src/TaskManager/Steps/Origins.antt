-- ===== src/TaskManager/Steps/Origins.antt =====
-- Every operation keeps the origins of the rows that ended without success.
use ds_service.Base.{
  ℕ, ◌≡◌, refl, ◌∙◌, inl, inr, String, true, ◌&&◌, ◌==◌, List, [], ◌∷◌, length, get_or, eqb,
  Bool-cases, Option-cases, arith,
}
use ds_service.Error.{Result-cases}
use ds_service.Messages.{TaskAddRequest, TaskCancelRequest, TaskSetPriorityRequest, TaskDoneRequest}
use ds_service.TaskManager.Add.{
  no_parents, scan_parents, decide, register, resolve, push_row, add_row, add,
}
use ds_service.TaskManager.Cancel.{cancel}
use ds_service.TaskManager.Cancel.Verdict.{cancel_row}
use ds_service.TaskManager.Done.{decrement, release_child, release_children, finish, done}
use ds_service.TaskManager.Done.Failure.{fail_row}
use ds_service.TaskManager.Get.{pop_usable, claim, get_from, get}
use ds_service.TaskManager.Graph.{is_doomed}
use ds_service.TaskManager.Graph.Origins.{
  AllRooted, Roots-AllRooted, ended-Roots, same-AllRooted, moved-AllRooted,
}
use ds_service.TaskManager.Graph.Origins.Add.{decided_by_parent, pushed-Roots}
use ds_service.TaskManager.Keeps.Cancel.{canceled_row, cancel-Ending}
use ds_service.TaskManager.Keeps.Done.{failed_row, fail-Ending, same-running}
use ds_service.TaskManager.Keeps.Get.{pop_usable-ready, alive-ready}
use ds_service.TaskManager.Priority.{set_priority}
use ds_service.TaskManager.Propagate.{terminal_output}
use ds_service.TaskManager.State.{
  TaskTable, TaskManager, IsAligned, state_at, children_at, pending_at, enqueue,
}
use ds_service.TaskManager.Steps.{
  Operation, adds, cancels, sets_priority, gets, dones, Steps, here, next, initial, after,
  reachable-WellFormed,
}
use ds_service.TaskManager.Steps.Stays.{get_or-set_other}
use ds_service.TaskState.{waiting, ready, running, finished, failed, canceled, same, is_live}
use ds_service.ThirdParty.{ThirdParty}

module _ (P : ThirdParty) where
  add_row-AllRooted :
      (m : TaskManager P) (request : TaskAddRequest) (parents : List ℕ)
      → IsAligned m.tasks
      → AllRooted P m.tasks
      → AllRooted P (add_row P m request parents).tasks
  unfolding add_row enqueue
  add_row-AllRooted m request parents a r =
      let index = length m.tasks.task_id in
      let scan = scan_parents m.tasks parents no_parents in
      let (state, origin) = decide m.tasks index scan in
      let row = push_row P m.tasks request state scan.pending_parents origin in
      let added : TaskTable = record row { children = register row row.children parents index } in
      let pushed : AllRooted P added =
        Roots-AllRooted P m.tasks added
          (pushed-Roots P m.tasks request state scan.pending_parents origin added.children a
            (decided_by_parent m.tasks index parents) r)
          r in
      elim (Bool-cases (same state ready)) [
        | inl e ↦ rw e (same-AllRooted P added _ refl refl refl refl pushed)
        | inr e ↦ rw e pushed
      ]

  add-AllRooted :
      (m : TaskManager P) (request : TaskAddRequest)
      → IsAligned m.tasks
      → AllRooted P m.tasks
      → AllRooted P (add P m request).1.tasks
  unfolding add
  add-AllRooted m request a r = elim (Option-cases (P.find m.task_index request.task_id)) [
    | inr (i, e) ↦ rw (e, add) r
    | inl e ↦ elim (Result-cases (resolve P m.task_index request.parent_task_ids)) [
      | inr (x, f) ↦ rw (e, f, add) r
      | inl (parents, f) ↦ rw (e, f, add) (add_row-AllRooted m request parents a r)
    ]
  ]

  cancel-AllRooted :
      (m : TaskManager P) (request : TaskCancelRequest)
      → IsAligned m.tasks
      → AllRooted P m.tasks
      → AllRooted P (cancel P m request).1.tasks
  unfolding cancel canceled_row terminal_output same
  cancel-AllRooted m request a r = elim (Option-cases (P.find m.task_index request.task_id)) [
    | inl e ↦ rw (e, cancel) r
    | inr (index, e) ↦ elim (Bool-cases (is_live (state_at m.tasks index))) [
      | inr over ↦ rw (e, cancel, over) r
      | inl live ↦
          let c = cancel_row P m.tasks index a live in
          let x = cancel-Ending P m.tasks index a live in
          rw (e, cancel, live)
            (Roots-AllRooted P m.tasks _
              (ended-Roots P m.tasks _ index canceled live
                (x.propagated.same_graph.task_id ∙ x.task_id) c.state c.origin c.others)
              r)
    ]
  ]

  set_priority-AllRooted :
      (m : TaskManager P) (request : TaskSetPriorityRequest)
      → AllRooted P m.tasks
      → AllRooted P (set_priority P m request).1.tasks
  unfolding set_priority enqueue
  set_priority-AllRooted m request r = elim (Option-cases (P.find m.task_index request.task_id)) [
    | inl e ↦ rw (e, set_priority) r
    | inr (index, e) ↦ elim (Bool-cases (same (state_at m.tasks index) ready)) [
      | inl k ↦ rw (e, set_priority, k) (same-AllRooted P m.tasks _ refl refl refl refl r)
      | inr k ↦ rw (e, set_priority, k) (same-AllRooted P m.tasks _ refl refl refl refl r)
    ]
  ]

  get_from-AllRooted :
      (m : TaskManager P) (worker_id : String) (names : List String)
      → AllRooted P m.tasks
      → AllRooted P (get_from P m worker_id names).1.tasks
  unfolding get_from claim is_doomed
  get_from-AllRooted m worker_id [] r = r
  get_from-AllRooted m worker_id (qname ∷ names) r = elim (Option-cases (P.find m.queue qname)) [
    | inl e ↦ rw (e, get_from) (get_from-AllRooted m worker_id names r)
    | inr (q, e) ↦
        let popped : TaskManager P = record m {
          queue = P.assign m.queue qname (pop_usable m.tasks q).1;
        } in
        elim (Option-cases (pop_usable m.tasks q).0) [
          | inl n ↦ rw (e, get_from, n) (get_from-AllRooted popped worker_id names r)
          | inr (entry, s) ↦
              let is_ready = alive-ready m.tasks entry (pop_usable-ready m.tasks q entry s) in
              rw (e, get_from, s)
                (moved-AllRooted P m.tasks _ entry.index running (rw is_ready refl) refl refl refl
                  refl (λ i other. refl) r)
        ]
  ]

  release_child-AllRooted :
      (m : TaskManager P) (child : ℕ)
      → AllRooted P m.tasks
      → AllRooted P (release_child P m child).tasks
  unfolding release_child enqueue is_doomed
  release_child-AllRooted m child r =
      elim (Bool-cases
        (eqb (decrement (pending_at m.tasks child)) 0 && same (state_at m.tasks child) waiting)) [
          | inl e ↦ rw e (
              moved-AllRooted P m.tasks _ child ready (ground (arith, e)) refl refl refl refl
                (λ i other. refl) r)
          | inr e ↦ rw e (same-AllRooted P m.tasks _ refl refl refl refl r)
        ]

  release_children-AllRooted :
      (m : TaskManager P) (children : List ℕ)
      → AllRooted P m.tasks
      → AllRooted P (release_children P m children).tasks
  unfolding release_children
  release_children-AllRooted m [] r = r
  release_children-AllRooted m (child ∷ children) r =
      release_children-AllRooted (release_child P m child) children
        (release_child-AllRooted m child r)

  finish-AllRooted :
      (m : TaskManager P) (index : ℕ) (request : TaskDoneRequest)
      → state_at m.tasks index ≡ running
      → IsAligned m.tasks
      → AllRooted P m.tasks
      → AllRooted P (finish P m index request).tasks
  unfolding finish failed_row is_doomed is_live terminal_output same
  finish-AllRooted m index request run a r = elim (Bool-cases request.failed) [
    | inl e ↦
        let live : is_live (state_at m.tasks index) ≡ true = rw run refl in
        let f = fail_row P m.tasks index request.output a live in
        let x = fail-Ending m.tasks index request.output a P live in
        rw e (
          Roots-AllRooted P m.tasks _
            (ended-Roots P m.tasks _ index failed live (x.propagated.same_graph.task_id ∙ x.task_id)
              f.state f.origin f.others)
            r)
    | inr e ↦ rw e (
        release_children-AllRooted _ (children_at m.tasks index) (
          moved-AllRooted P m.tasks _ index finished (rw run refl) refl refl refl refl
            (get_or-set_other m.tasks.output index request.output) r))
  ]

  done-AllRooted :
      (m : TaskManager P) (request : TaskDoneRequest)
      → IsAligned m.tasks
      → AllRooted P m.tasks
      → AllRooted P (done P m request).1.tasks
  unfolding done
  done-AllRooted m request a r = elim (Option-cases (P.find m.task_index request.task_id)) [
    | inl e ↦ rw (e, done) r
    | inr (i, e) ↦ elim (Bool-cases (same (state_at m.tasks i) canceled)) [
      | inl c ↦ rw (e, done, c) r
      | inr nc ↦ elim (Bool-cases (same (state_at m.tasks i) running)) [
        | inr nr ↦ rw (e, done, nc, nr) r
        | inl k ↦ elim (Bool-cases (get_or m.tasks.worker_id i "" == request.worker_id)) [
          | inr other ↦ rw (e, done, nc, k, other) r
          | inl own ↦
              rw (e, done, nc, k, own) (finish-AllRooted m i request (same-running P _ k) a r)
        ]
      ]
    ]
  ]

  after-AllRooted :
      (m : TaskManager P) (op : Operation)
      → IsAligned m.tasks
      → AllRooted P m.tasks
      → AllRooted P (after P m op).tasks
  unfolding after get
  after-AllRooted m (adds request) a r = add-AllRooted m request a r
  after-AllRooted m (cancels request) a r = cancel-AllRooted m request a r
  after-AllRooted m (sets_priority request) a r = set_priority-AllRooted m request r
  after-AllRooted m (gets request) a r = get_from-AllRooted m request.worker_id request.queue r
  after-AllRooted m (dones request) a r = done-AllRooted m request a r

  -- In every state that the manager reaches, each task that has Failed or is Canceled has an origin that
  -- ended in the same state by itself: the origin of the origin is itself. And if that is another task,
  -- then the output is "Dependency failed (task_id={})" with the id of the origin for a Failed task, and
  -- "Task canceled" for a Canceled one.
  pub reachable-AllRooted : (m : TaskManager P) → Steps P (initial P) m → AllRooted P m.tasks
  unfolding is_doomed get_or
  reachable-AllRooted m here = λ i doomed. absurd (ground (arith, doomed))
  reachable-AllRooted m (next {n = k} s op) =
      after-AllRooted k op (reachable-WellFormed P k s).aligned (reachable-AllRooted k s)
