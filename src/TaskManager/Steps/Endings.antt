-- ===== src/TaskManager/Steps/Endings.antt =====
-- A task goes on along its life, and stays as it is once it has ended.
use ds_service.Base.{
  ℕ, ◌≡◌, refl, ap, inl, inr, String, true, false, List, [], ◌∷◌, ◌==◌, length, get_or, Bool-cases,
  Option-cases, arith, get_or-set, eqb→eq,
}
use ds_service.Messages.{TaskCancelRequest, TaskSetPriorityRequest, TaskDoneRequest}
use ds_service.TaskManager.Cancel.{cancel}
use ds_service.TaskManager.Done.{release_child, release_children, finish, done}
use ds_service.TaskManager.Get.{pop_usable, claim, get_from, get}
use ds_service.TaskManager.Keeps.Done.{failed_row, failed_row-IsAligned, same-running}
use ds_service.TaskManager.Keeps.Get.{pop_usable-ready, alive-ready}
use ds_service.TaskManager.Priority.{set_priority}
use ds_service.TaskManager.Propagate.{end_row, propagate_to_children, terminal_output}
use ds_service.TaskManager.Propagate.Cells.{end_row-IsAligned}
use ds_service.TaskManager.Propagate.Outcomes.{propagate-Propagated}
use ds_service.TaskManager.State.{TaskTable, TaskManager, IsAligned, state_at, children_at, enqueue}
use ds_service.TaskManager.Steps.{
  Operation, adds, cancels, sets_priority, gets, dones, Steps, here, next, initial, after,
  Steps-WellFormed, reachable-WellFormed,
}
use ds_service.TaskState.{
  TaskState, ready, running, finished, failed, canceled, undefined, same, is_live,
}
use ds_service.ThirdParty.{ThirdParty}
use ds_service.TaskManager.Steps.Stays.{
  stage, Stays, same-Stays, Stays-refl, Stays-trans, stage-live, moved-Stays, get_or-set_other,
}
use ds_service.TaskManager.Steps.Stays.Add.{add-Stays}

module _ (P : ThirdParty) where
  propagate-Stays :
      (t : TaskTable) (index : ℕ) (s : TaskState) (origin : ℕ)
      → is_live s ≡ false
      → stage s ≡ 4
      → IsAligned t
      → Stays t (propagate_to_children P t index s origin)
  unfolding is_live
  propagate-Stays t index s origin dead over a =
      let d = propagate-Propagated P t index s origin dead a in
      record {
        rows = omega (arith, ap length d.same_graph.task_id);
        order = λ i h. elim (d.outcome i) [
          | inl k ↦ ground (arith, k.state)
          | inr x ↦ ground (arith, x.live, x.state, stage-live (state_at t i), over)
        ];
        worker = λ i h e r. elim (d.outcome i) [
          | inl k ↦ k.worker_id
          | inr x ↦ absurd (ground (arith, x.state, r, dead))
        ];
        state = λ i h e. elim (d.outcome i) [ inl k ↦ k.state | inr x ↦ cc (x.live, e) ];
        output = λ i h e. elim (d.outcome i) [ inl k ↦ k.output | inr x ↦ cc (x.live, e) ];
      }

  cancel-Stays :
      (m : TaskManager P) (request : TaskCancelRequest)
      → IsAligned m.tasks
      → Stays m.tasks (cancel P m request).1.tasks
  unfolding cancel end_row is_live stage
  cancel-Stays m request a = elim (Option-cases (P.find m.task_index request.task_id)) [
    | inl e ↦ rw (e, cancel) (Stays-refl m.tasks)
    | inr (index, e) ↦ elim (Bool-cases (is_live (state_at m.tasks index))) [
      | inr over ↦ rw (e, cancel, over) (Stays-refl m.tasks)
      | inl live ↦
          let text = terminal_output P m.tasks canceled index in
          let ended = end_row m.tasks canceled text index index in
          rw (e, cancel, live)
            (Stays-trans m.tasks ended _
              (moved-Stays m.tasks ended index canceled live (stage-live _ live) refl refl
                (get_or-set_other m.tasks.worker_id index "")
                (get_or-set_other m.tasks.output index text))
              (propagate-Stays ended index canceled index refl refl
                (end_row-IsAligned canceled text index m.tasks index a)))
    ]
  ]

  set_priority-Stays :
      (m : TaskManager P) (request : TaskSetPriorityRequest)
      → Stays m.tasks (set_priority P m request).1.tasks
  unfolding set_priority enqueue
  set_priority-Stays m request = elim (Option-cases (P.find m.task_index request.task_id)) [
    | inl e ↦ rw (e, set_priority) (Stays-refl m.tasks)
    | inr (index, e) ↦ elim (Bool-cases (same (state_at m.tasks index) ready)) [
      | inl r ↦ rw (e, set_priority, r) (same-Stays m.tasks _ refl refl refl refl)
      | inr r ↦ rw (e, set_priority, r) (same-Stays m.tasks _ refl refl refl refl)
    ]
  ]

  running_is_live : (s : TaskState) → s ≡ running → is_live s ≡ true
  unfolding is_live
  running_is_live s h = rw h

  ready_live : (s : TaskState) → s ≡ ready → is_live s ≡ true
  unfolding is_live
  ready_live s h = rw h

  get_from-Stays :
      (m : TaskManager P) (worker_id : String) (names : List String)
      → Stays m.tasks (get_from P m worker_id names).1.tasks
  unfolding get_from claim stage
  get_from-Stays m worker_id [] = Stays-refl m.tasks
  get_from-Stays m worker_id (qname ∷ names) = elim (Option-cases (P.find m.queue qname)) [
    | inl e ↦ rw (e, get_from) (get_from-Stays m worker_id names)
    | inr (q, e) ↦
        let popped : TaskManager P = record m {
          queue = P.assign m.queue qname (pop_usable m.tasks q).1;
        } in
        elim (Option-cases (pop_usable m.tasks q).0) [
          | inl n ↦ rw (e, get_from, n) (get_from-Stays popped worker_id names)
          | inr (entry, s) ↦
              let is_ready = alive-ready m.tasks entry (pop_usable-ready m.tasks q entry s) in
              rw (e, get_from, s)
                (moved-Stays m.tasks _ entry.index running (ready_live _ is_ready)
                  (ground (arith, is_ready)) refl refl
                  (get_or-set_other m.tasks.worker_id entry.index worker_id) (λ i other. refl))
        ]
  ]

  release_child-Stays :
      (m : TaskManager P) (child : ℕ) → Stays m.tasks (release_child P m child).tasks
  unfolding release_child enqueue is_live stage
  release_child-Stays m child = record {
    rows = ground arith;
    order = λ i h. ground (arith, get_or-set m.tasks.state child ready i undefined, eqb→eq child i);
    worker = λ i h e r. ground arith;
    state = λ i h e. ground (arith, get_or-set m.tasks.state child ready i undefined);
    output = λ i h e. ground arith;
  }

  release_children-Stays :
      (m : TaskManager P) (children : List ℕ) → Stays m.tasks (release_children P m children).tasks
  unfolding release_children
  release_children-Stays m [] = Stays-refl m.tasks
  release_children-Stays m (child ∷ children) =
      Stays-trans _ _ _ (release_child-Stays m child)
        (release_children-Stays (release_child P m child) children)

  finish-Stays :
      (m : TaskManager P) (index : ℕ) (request : TaskDoneRequest)
      → is_live (state_at m.tasks index) ≡ true
      → IsAligned m.tasks
      → Stays m.tasks (finish P m index request).tasks
  unfolding finish failed_row is_live stage
  finish-Stays m index request live a = elim (Bool-cases request.failed) [
    | inl e ↦ rw e (
        Stays-trans _ _ _
          (moved-Stays m.tasks (failed_row m.tasks index request.output) index failed live
            (stage-live _ live) refl refl (λ i other. refl)
            (get_or-set_other m.tasks.output index request.output))
          (propagate-Stays (failed_row m.tasks index request.output) index failed index refl refl
            (failed_row-IsAligned m.tasks index request.output a)))
    | inr e ↦ rw e (
        Stays-trans _ _ _
          (moved-Stays m.tasks _ index finished live (stage-live _ live) refl refl (λ i other. refl)
            (get_or-set_other m.tasks.output index request.output))
          (release_children-Stays _ (children_at m.tasks index)))
  ]

  done-Stays :
      (m : TaskManager P) (request : TaskDoneRequest)
      → IsAligned m.tasks
      → Stays m.tasks (done P m request).1.tasks
  unfolding done
  done-Stays m request a = elim (Option-cases (P.find m.task_index request.task_id)) [
    | inl e ↦ rw (e, done) (Stays-refl m.tasks)
    | inr (i, e) ↦ elim (Bool-cases (same (state_at m.tasks i) canceled)) [
      | inl c ↦ rw (e, done, c) (Stays-refl m.tasks)
      | inr nc ↦ elim (Bool-cases (same (state_at m.tasks i) running)) [
        | inr nr ↦ rw (e, done, nc, nr) (Stays-refl m.tasks)
        | inl r ↦ elim (Bool-cases (get_or m.tasks.worker_id i "" == request.worker_id)) [
          | inr other ↦ rw (e, done, nc, r, other) (Stays-refl m.tasks)
          | inl own ↦
              rw (e, done, nc, r, own)
                (finish-Stays m i request (running_is_live _ (same-running P _ r)) a)
        ]
      ]
    ]
  ]

  after-Stays :
      (m : TaskManager P) (op : Operation) → IsAligned m.tasks → Stays m.tasks (after P m op).tasks
  unfolding after get
  after-Stays m (adds request) a = add-Stays P m request a
  after-Stays m (cancels request) a = cancel-Stays m request a
  after-Stays m (sets_priority request) a = set_priority-Stays m request
  after-Stays m (gets request) a = get_from-Stays m request.worker_id request.queue
  after-Stays m (dones request) a = done-Stays m request a

  -- The life of a task. Whatever the clients do after the manager has reached the state `m`, no task goes
  -- away, and none goes back: it is Waiting, then Ready, then Running, then Finished, Failed or Canceled,
  -- and stages can be left out. A task that is Running in `m` and is Running later has the same worker. A
  -- task that was Finished, Failed or Canceled in `m` keeps its state and its output.
  pub endings_final :
      (m n : TaskManager P) → Steps P (initial P) m → Steps P m n → Stays m.tasks n.tasks
  endings_final m n before here = Stays-refl m.tasks
  endings_final m n before (next {n = k} s op) =
      Stays-trans _ _ _ (endings_final m k before s)
        (after-Stays k op (Steps-WellFormed P m k (reachable-WellFormed P m before) s).aligned)
