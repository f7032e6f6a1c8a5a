-- ===== src/TaskManager/Dispatch/Release.antt =====
-- TaskManager::done keeps the invariant of the queues.
use ds_service.Base.{
  ℕ, suc, ◌+◌, ◌^◌, ◌<◌, ◌≤◌, ◌≡◌, refl, true, List, [], ◌∷◌, length, get_or, set, eqb, ◌&&◌, arith,
  inl, inr, Bool-cases, get_or-set, length-set,
}
use ds_service.TaskManager.Dispatch.{IsQueuedBut}
use ds_service.TaskManager.Dispatch.Carry.{carry, leave_out, end_not_ready}
use ds_service.TaskManager.Dispatch.Enqueue.{enqueue-IsQueued, next_seq-enqueue}
use ds_service.TaskManager.Done.{decrement, release_child, release_children}
use ds_service.TaskManager.Keeps.Release.{Releasing, release_child-Releasing, release_child-index}
use ds_service.TaskManager.Propagate.Cells.{live_in_range}
use ds_service.TaskManager.State.{TaskTable, TaskManager, IsAligned, state_at, pending_at, enqueue}
use ds_service.TaskState.{TaskState, waiting, ready, undefined, same, is_live}
use ds_service.ThirdParty.{ThirdParty}

waiting_in_range :
    (states : List TaskState) (i : ℕ) → get_or states i undefined ≡ waiting → i < length states
unfolding is_live
waiting_in_range states i h = live_in_range states i (rw h)

same-waiting : (s : TaskState) → same s waiting ≡ true → s ≡ waiting
unfolding same
same-waiting s h = ground arith

-- The row `child` with a count of pending parents, and Ready.
abbrev readied_table : TaskTable → ℕ → ℕ → TaskTable
readied_table t child count = record t {
  pending_parents = set t.pending_parents child count;
  state = set t.state child ready;
}

readied-IsAligned :
    (t : TaskTable) (child count : ℕ) → IsAligned t → IsAligned (readied_table t child count)
readied-IsAligned t child count a =
    ground (arith, length-set t.pending_parents child count, length-set t.state child ready)

module _ (P : ThirdParty) (k : ℕ) where
  -- The row `child` becomes Ready and is enqueued.
  ready_child-IsQueued :
      (m : TaskManager P) (child count : ℕ)
      → IsAligned m.tasks
      → length m.tasks.task_id ≤ k
      → state_at m.tasks child ≡ waiting
      → m.next_seq + 1 < 2 ^ 64
      → IsQueuedBut P k m
      → IsQueuedBut P k (enqueue P (record m { tasks = readied_table m.tasks child count }) child)
  ready_child-IsQueued m child count a past waits room w =
      enqueue-IsQueued P _ child k (readied-IsAligned m.tasks child count a)
        (ground (
          arith,
          get_or-set m.tasks.state child ready child undefined,
          waiting_in_range m.tasks.state child waits,
        ))
        room
        (carry P child m (record m { tasks = readied_table m.tasks child count }) refl refl
          (record {
            numbers = w.numbers;
            priority = λ j _. refl;
            seq = λ j _. refl;
            queues = λ j _. refl;
            ready_before =
                λ j nk h. ground (arith, get_or-set m.tasks.state child ready j undefined);
            listed = λ j q h. h;
          })
          (leave_out P k child m (end_not_ready m.tasks k a past) w))

  release_child-IsQueued :
      (m : TaskManager P) (child : ℕ)
      → IsAligned m.tasks
      → length m.tasks.task_id ≤ k
      → m.next_seq + 1 < 2 ^ 64
      → IsQueuedBut P k m
      → IsQueuedBut P k (release_child P m child)
        × ((release_child P m child).next_seq ≤ suc m.next_seq)
  unfolding release_child
  release_child-IsQueued m child a past room w =
      let count = decrement (pending_at m.tasks child) in
      elim (Bool-cases (eqb count 0 && same (state_at m.tasks child) waiting)) [
        | inl e ↦
            rw (e, release_child)
              (
                ready_child-IsQueued m child count a past (same-waiting _ (ground arith)) room w,
                omega (
                  arith,
                  next_seq-enqueue P (record m { tasks = readied_table m.tasks child count }) child
                      room,
                ),
              )
        | inr e ↦
            rw (e, release_child)
              (
                carry P k m
                    (record m {
                      tasks = record m.tasks {
                        pending_parents = set m.tasks.pending_parents child count;
                      };
                    })
                    refl refl
                    (record {
                      numbers = w.numbers;
                      priority = λ j _. refl;
                      seq = λ j _. refl;
                      queues = λ j _. refl;
                      ready_before = λ j _ h. h;
                      listed = λ j q h. h;
                    })
                    w,
                omega arith,
              )
      ]

  pub release_children-IsQueued :
      (m : TaskManager P) (children : List ℕ)
      → Releasing m.tasks children
      → length m.tasks.task_id ≤ k
      → m.next_seq + length children < 2 ^ 64
      → IsQueuedBut P k m
      → IsQueuedBut P k (release_children P m children)
  unfolding release_children
  release_children-IsQueued m [] r past room w = w
  release_children-IsQueued m (child ∷ children) r past room w =
      let (kept, next) = release_child-IsQueued m child r.aligned past (omega arith) w in
      release_children-IsQueued (release_child P m child) children
        (release_child-Releasing P m child children r) (rw (release_child-index P m child).1 past)
        (omega (arith, next)) kept
