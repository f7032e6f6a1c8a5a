-- ===== src/TaskManager/Done/Releases.antt =====
-- Which tasks TaskManager::done makes Ready.
use ds_service.Base.{
  ℕ, ◌<◌, ◌≡◌, ◌≢◌, ◌⊎◌, refl, sym, ap, subst, inl, true, false, ◌&&◌, some, List, [], ◌∷◌, eq_iff,
  length, get_or, eqb, if◌then◌else◌, arith, get_or-set,
}
use ds_service.Error.{Result, ok}
use ds_service.Messages.{TaskDoneRequest}
use ds_service.TaskManager.Done.{release_child, release_children, finish, done}
use ds_service.TaskManager.Graph.{WellFormed, is_released}
use ds_service.TaskManager.Graph.Owed.{owed}
use ds_service.TaskManager.Keeps.Done.{finished_row, done-WellFormed, running_live}
use ds_service.TaskManager.Keeps.Release.{release_children-index}
use ds_service.TaskManager.Propagate.Cells.{live_in_range}
use ds_service.TaskManager.State.{TaskTable, TaskManager, state_at, children_at, enqueue}
use ds_service.TaskState.{TaskState, waiting, ready, running, finished, undefined, same}
use ds_service.ThirdParty.{ThirdParty}

-- The row keeps its state, or goes from Waiting to Ready.
abbrev IsReleased : TaskTable → TaskTable → ℕ → Type 0
IsReleased t u j =
    (state_at u j ≡ state_at t j) ⊎ ((state_at t j ≡ waiting) × (state_at u j ≡ ready))

same-waiting : (s : TaskState) → same s waiting ≡ true → s ≡ waiting
unfolding same
same-waiting s h = ground arith

-- The state of a row whose count is right and which waits exactly while its count is not zero.
settled :
    (s t : TaskState) (pending due : ℕ)
    → (t ≡ s) ⊎ ((s ≡ waiting) × (t ≡ ready))
    → pending ≡ due
    → (t ≡ waiting → 0 < pending)
    → (is_released t ≡ true → pending ≡ 0)
    → t ≡ (if same s waiting && eqb due 0 then ready else s)
unfolding same is_released
settled s t pending due cases counted held released = ground (arith, cases, counted, held, released)

module _ (P : ThirdParty) where
  release_child-IsReleased :
      (m : TaskManager P) (child j : ℕ) → IsReleased m.tasks (release_child P m child).tasks j
  unfolding release_child enqueue
  release_child-IsReleased m child j = ground (
    arith,
    get_or-set m.tasks.state child ready j undefined,
    same-waiting (state_at m.tasks child),
  )

  release_children-IsReleased :
      (m : TaskManager P) (children : List ℕ) (j : ℕ)
      → IsReleased m.tasks (release_children P m children).tasks j
  unfolding release_children
  release_children-IsReleased m [] j = inl refl
  release_children-IsReleased m (child ∷ children) j = ground (
    arith,
    release_child-IsReleased m child j,
    release_children-IsReleased (release_child P m child) children j,
  )

  finish-IsReleased :
      (m : TaskManager P) (index : ℕ) (request : TaskDoneRequest) (j : ℕ)
      → request.failed ≡ false
      → IsReleased (finished_row m.tasks index request.output) (finish P m index request).tasks j
  unfolding finish finished_row
  finish-IsReleased m index request j e = rw e (
      release_children-IsReleased (record m { tasks = finished_row m.tasks index request.output })
        (children_at m.tasks index) j)

  finish-task_id :
      (m : TaskManager P) (index : ℕ) (request : TaskDoneRequest)
      → request.failed ≡ false
      → (finish P m index request).tasks.task_id ≡ m.tasks.task_id
  unfolding finish
  finish-task_id m index request e =
      rw e ((release_children-index P _ (children_at m.tasks index)).1)

  pub accepted :
      (m : TaskManager P) (request : TaskDoneRequest) (index : ℕ)
      → P.find m.task_index request.task_id ≡ some index
      → state_at m.tasks index ≡ running
      → get_or m.tasks.worker_id index "" ≡ request.worker_id
      → done P m request ≡ (ok tt, finish P m index request)
  unfolding done same
  accepted m request index found run own =
      ground (arith, found, run, own, eq_iff request.worker_id request.worker_id)

  -- A worker reports that its Running task has finished, not failed, in a state that has the invariant
  -- of the graph. The report is accepted and the task is Finished. Of every other row: if it was
  -- Waiting and no edge leads to it any more from a task that has not finished, then it is Ready, and
  -- otherwise it keeps its state.
  pub done-finished :
      (m : TaskManager P) (request : TaskDoneRequest) (index j : ℕ)
      → WellFormed P m
      → P.find m.task_index request.task_id ≡ some index
      → state_at m.tasks index ≡ running
      → get_or m.tasks.worker_id index "" ≡ request.worker_id
      → request.failed ≡ false
      → j < length m.tasks.task_id
      → j ≢ index
      → ((done P m request).0 ≡ ok tt)
        × (state_at (done P m request).1.tasks index ≡ finished)
        × (state_at (done P m request).1.tasks j ≡ (
            if same (state_at m.tasks j) waiting
              && eqb (owed (done P m request).1.tasks.state (done P m request).1.tasks.children j) 0
            then ready
            else state_at m.tasks j))
  done-finished m request index j w found run own e inside other =
      let u = (finish P m index request).tasks in
      let wf : WellFormed P (finish P m index request) =
        subst (λ (r : Result (Unit {0}) × TaskManager P). WellFormed P r.1)
          (accepted m request index found run own) (done-WellFormed P m request w) in
      let row = λ (c : ℕ). get_or-set m.tasks.state index finished c undefined in
      let near = live_in_range m.tasks.state index (running_live P m index request.output w run) in
      let rows = ap length (finish-task_id m index request e) in
      let at_index = finish-IsReleased m index request index e in
      let at_j = finish-IsReleased m index request j e in
      subst
        (λ (r : Result (Unit {0}) × TaskManager P).
          (r.0 ≡ ok tt)
          × (state_at r.1.tasks index ≡ finished)
          × (state_at r.1.tasks j ≡ (
              if same (state_at m.tasks j) waiting
                && eqb (owed r.1.tasks.state r.1.tasks.children j) 0
              then ready
              else state_at m.tasks j)))
        (sym (accepted m request index found run own))
        (
          refl,
          (unfold finished_row in ground (arith, row index, near, at_index)),
          settled (state_at m.tasks j) (state_at u j) (get_or u.pending_parents j 0)
              (owed u.state u.children j)
              (unfold finished_row in ground (arith, row j, other, at_j))
              (wf.graph.counted j (omega (arith, rows, inside)))
              (wf.graph.held j (omega (arith, rows, inside)))
              (wf.graph.released j (omega (arith, rows, inside))),
        )
