-- ===== src/TaskManager/Keeps/Done.antt =====
-- TaskManager::done keeps the invariant.
use ds_service.Base.{
  ℕ, ◌+◌, ◌<◌, ◌≡◌, refl, inl, inr, String, true, ◌==◌, [], length, get_or, set, Bool-cases,
  Option-cases, arith, length-set, get_or-set, eqb, if◌then◌else◌,
}
use ds_service.Messages.{TaskDoneRequest}
use ds_service.TaskManager.Done.{release_children, finish, done}
use ds_service.TaskManager.Graph.{WellFormed, is_doomed, is_released}
use ds_service.TaskManager.Graph.Ended.{Ending}
use ds_service.TaskManager.Graph.Owed.{occ, owed, share, owed-set-state}
use ds_service.TaskManager.Keeps.Release.{
  Releasing, Releasing-IsGraph, release_children-Releasing, release_children-index,
}
use ds_service.TaskManager.Keeps.Same.{IsIndexed-same, Ending-WellFormed}
use ds_service.TaskManager.Propagate.{terminal_output, propagate_to_children}
use ds_service.TaskManager.Propagate.Cells.{live_in_range}
use ds_service.TaskManager.Propagate.Outcomes.{propagate-Propagated}
use ds_service.TaskManager.State.{TaskTable, TaskManager, IsAligned, state_at, children_at}
use ds_service.TaskState.{TaskState, running, finished, failed, undefined, canceled, same, is_live}
use ds_service.ThirdParty.{ThirdParty}

-- The row of a report of failure, before its children hear of it.
unfoldable pub failed_row : TaskTable → ℕ → String → TaskTable
failed_row t index output = record t {
  output = set t.output index output;
  state = set t.state index failed;
  terminal_origin = set t.terminal_origin index index;
}

unfoldable pub finished_row : TaskTable → ℕ → String → TaskTable
finished_row t index output = record t {
  output = set t.output index output;
  state = set t.state index finished;
}

module _ (t : TaskTable) (index : ℕ) (output : String) (a : IsAligned t) where
  pub failed_row-IsAligned : IsAligned (failed_row t index output)
  unfolding failed_row
  failed_row-IsAligned = ground (
    arith,
    length-set t.output index output,
    length-set t.state index failed,
    length-set t.terminal_origin index index,
  )

  pub fail-Ending :
      (P : ThirdParty)
      → is_live (state_at t index) ≡ true
      → Ending failed
          (terminal_output P (failed_row t index output) failed index)
          index
          index
          t
          (failed_row t index output)
          (propagate_to_children P (failed_row t index output) index failed index)
  unfolding failed_row is_doomed is_live
  fail-Ending P live = record {
    doomed = refl;
    live = live;
    aligned = a;
    task_id = refl;
    state = refl;
    pending_parents = refl;
    children = refl;
    propagated =
        propagate-Propagated P (failed_row t index output) index failed index refl
          failed_row-IsAligned;
  }

module _ (P : ThirdParty) (m : TaskManager P) (index : ℕ) (output : String) (w : WellFormed P m)
    (run : state_at m.tasks index ≡ running) where
  pub running_live : is_live (state_at m.tasks index) ≡ true
  unfolding is_live
  running_live = rw run

  in_range : index < length m.tasks.task_id
  in_range = ground (arith, w.aligned, live_in_range m.tasks.state index running_live)

  state_at-finished :
      (c : ℕ)
      → get_or (set m.tasks.state index finished) c undefined
        ≡ (if eqb index c then finished else state_at m.tasks c)
  state_at-finished c =
      ground (arith, get_or-set m.tasks.state index finished c undefined, w.aligned, in_range)

  -- What the children were owed by this row they are owed no more.
  owed-finished :
      (c : ℕ)
      → owed m.tasks.state m.tasks.children c
        ≡ owed (set m.tasks.state index finished) m.tasks.children c
          + occ c (children_at m.tasks index)
  unfolding share same
  owed-finished c = ground (
    arith,
    owed-set-state c m.tasks.state m.tasks.children index finished
        (ground (arith, w.aligned, in_range)) (ground (arith, w.aligned)),
    run,
  )

  pub finished_row-Releasing :
      Releasing (finished_row m.tasks index output) (children_at m.tasks index)
  unfolding finished_row is_released is_doomed is_live
  finished_row-Releasing = record {
    aligned = ground (
      arith,
      w.aligned,
      length-set m.tasks.output index output,
      length-set m.tasks.state index finished,
    );
    forward = w.graph.forward;
    counted = λ c h. ground (arith, w.graph.counted c h, owed-finished c);
    defined = λ c h. ground (arith, state_at-finished c, w.graph.defined c h);
    held = λ c h s. ground (arith, state_at-finished c, w.graph.held c h);
    released = λ c h s. ground (arith, state_at-finished c, w.graph.released c h, run);
    ended =
        λ p c h d. ground (arith, state_at-finished c, state_at-finished p, w.graph.ended p c h);
    in_range = λ c h. (w.graph.forward index c h).1;
  }

module _ (P : ThirdParty) where
  abbrev finished_manager : TaskManager P → ℕ → String → TaskManager P
  finished_manager m index output = record m { tasks = finished_row m.tasks index output }

  finish-WellFormed :
      (m : TaskManager P) (index : ℕ) (request : TaskDoneRequest)
      → state_at m.tasks index ≡ running
      → WellFormed P m
      → WellFormed P (finish P m index request)
  unfolding finish failed_row finished_row
  finish-WellFormed m index request run w = elim (Bool-cases request.failed) [
    | inl e ↦ rw e (
        Ending-WellFormed P m _ refl
          (fail-Ending m.tasks index request.output w.aligned P
            (running_live P m index request.output w run))
          (failed_row-IsAligned m.tasks index request.output w.aligned) w)
    | inr e ↦
        let r : Releasing
            (release_children P (finished_manager m index request.output)
              (children_at m.tasks index)).tasks
            [] =
          release_children-Releasing P (finished_manager m index request.output)
            (children_at m.tasks index) (finished_row-Releasing P m index request.output w run) in
        let kept =
          release_children-index P (finished_manager m index request.output)
            (children_at m.tasks index) in
        rw e (record {
          aligned = r.aligned;
          graph = Releasing-IsGraph _ r;
          indexed = IsIndexed-same P m _ kept.0 kept.1 w.indexed;
        })
  ]

  pub same-running : (s : TaskState) → same s running ≡ true → s ≡ running
  unfolding same
  same-running s h = ground arith

  pub done-WellFormed :
      (m : TaskManager P) (request : TaskDoneRequest)
      → WellFormed P m
      → WellFormed P (done P m request).1
  unfolding done
  done-WellFormed m request w = elim (Option-cases (P.find m.task_index request.task_id)) [
    | inl e ↦ rw (e, done) w
    | inr (i, e) ↦ elim (Bool-cases (same (state_at m.tasks i) canceled)) [
      | inl c ↦ rw (e, done, c) w
      | inr nc ↦ elim (Bool-cases (same (state_at m.tasks i) running)) [
        | inr nr ↦ rw (e, done, nc, nr) w
        | inl r ↦ elim (Bool-cases (get_or m.tasks.worker_id i "" == request.worker_id)) [
          | inr other ↦ rw (e, done, nc, r, other) w
          | inl own ↦ rw (e, done, nc, r, own) (finish-WellFormed m i request (same-running _ r) w)
        ]
      ]
    ]
  ]
