-- ===== src/TaskManager/Dispatch/Carry.antt =====
-- When the invariant of the queues carries over to another table.
use ds_service.Base.{ℕ, ◌<◌, ◌≤◌, ◌≡◌, ◌≢◌, subst, String, false, length, arith}
use ds_service.Double.{is_nan}
use ds_service.TaskManager.Dispatch.{IsEntry, entries_at, IsQueuedBut}
use ds_service.TaskManager.Propagate.Cells.{live_in_range}
use ds_service.TaskManager.Queue.{TaskQueueEntry}
use ds_service.TaskManager.Queue.Entries.{In, All-map}
use ds_service.TaskManager.State.{
  TaskTable, TaskManager, IsAligned, state_at, seq_at, priority_at, queues_at,
}
use ds_service.TaskState.{ready, is_live}
use ds_service.ThirdParty.{ThirdParty, count}

-- But at the row `k`, the table `u` has the priorities, the seqs and the queues of `t`, and no row more
-- that is Ready.
pub record Carries (k : ℕ) (t u : TaskTable) : Type 0 where
  pub numbers : (j : ℕ) → is_nan (priority_at u j) ≡ false
  pub priority : (j : ℕ) → j ≢ k → priority_at u j ≡ priority_at t j
  pub seq : (j : ℕ) → j ≢ k → seq_at u j ≡ seq_at t j
  pub queues : (j : ℕ) → j ≢ k → queues_at u j ≡ queues_at t j
  pub ready_before : (j : ℕ) → j ≢ k → state_at u j ≡ ready → state_at t j ≡ ready
  pub listed : (j : ℕ) (q : String) → 0 < count q (queues_at t j) → 0 < count q (queues_at u j)

module _ (P : ThirdParty) where
  pub carry :
      (k : ℕ) (m m' : TaskManager P)
      → m'.queue ≡ m.queue
      → m'.next_seq ≡ m.next_seq
      → Carries k m.tasks m'.tasks
      → IsQueuedBut P k m
      → IsQueuedBut P k m'
  carry k m m' queue next c w = record {
    numbers = c.numbers;
    sorted = λ q. rw queue (w.sorted q);
    entries = λ q.
        rw (queue, next)
          (All-map (IsEntry m.tasks m.next_seq k q) (IsEntry m'.tasks m.next_seq k q) _ (keeps q)
            (w.entries q));
    present = λ i q nk s h. rw queue (
        subst (λ e. In e (entries_at P m.queue q)) (ground (arith, c.priority i nk, c.seq i nk))
          (w.present i q nk (c.ready_before i nk s) (rw (c.queues i nk) at h)));
  }
    where
      keeps :
          (q : String) (e : TaskQueueEntry)
          → IsEntry m.tasks m.next_seq k q e
          → IsEntry m'.tasks m.next_seq k q e
      keeps q e x = record {
        number = x.number;
        old = x.old;
        listed = c.listed e.index q x.listed;
        current = λ nk s same_seq. ground (
          arith,
          x.current nk (c.ready_before e.index nk s),
          c.seq e.index nk,
          c.priority e.index nk,
        );
      }

  -- The row left out may change from one that is not Ready.
  pub leave_out :
      (k k' : ℕ) (m : TaskManager P)
      → state_at m.tasks k ≢ ready
      → IsQueuedBut P k m
      → IsQueuedBut P k' m
  leave_out k k' m other w = record {
    numbers = w.numbers;
    sorted = w.sorted;
    entries = λ q.
        All-map (IsEntry m.tasks m.next_seq k q) (IsEntry m.tasks m.next_seq k' q) _ (keeps q)
          (w.entries q);
    present =
        λ i q _ s h. w.present i q (λ e. other (subst (λ j. state_at m.tasks j ≡ ready) e s)) s h;
  }
    where
      keeps :
          (q : String) (e : TaskQueueEntry)
          → IsEntry m.tasks m.next_seq k q e
          → IsEntry m.tasks m.next_seq k' q e
      keeps q e x = record {
        number = x.number;
        old = x.old;
        listed = x.listed;
        current = λ _ s.
            x.current (λ same_row. other (subst (λ j. state_at m.tasks j ≡ ready) same_row s)) s;
      }

-- No row stands past the end of the table.
pub end_not_ready :
    (t : TaskTable) (k : ℕ) → IsAligned t → length t.task_id ≤ k → state_at t k ≢ ready
unfolding is_live
end_not_ready t k a past h = omega (arith, a, live_in_range t.state k (rw h))
