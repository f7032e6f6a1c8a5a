-- ===== src/TaskManager/Dispatch/Enqueue.antt =====
-- TaskManager::enqueue makes a Ready row known to its queues.
use ds_service.Base.{
  ℕ, zero, suc, ◌+◌, ◌%◌, ◌^◌, ◌<◌, ◌≡◌, refl, subst, ◌∙◌, String, List, [], ◌∷◌, ◌==◌, eq_iff,
  get_or, set, arith, inl, inr, Bool-cases, eqb, eqb→eq, get_or-set, length, if◌then◌else◌,
}
use ds_service.TaskManager.Dispatch.{entry_of, IsEntry, entries_at, IsQueuedBut}
use ds_service.TaskManager.Queue.{TaskQueue, TaskQueueEntry, push}
use ds_service.TaskManager.Queue.Order.{IsNumber}
use ds_service.TaskManager.Queue.Entries.{
  In, All, IsSorted, All-map, In-push, In-push_self, All-push, IsSorted-push,
}
use ds_service.TaskManager.State.{
  TaskTable, TaskManager, IsAligned, state_at, seq_at, priority_at, queues_at, push_each, enqueue,
}
use ds_service.TaskManager.Propagate.Cells.{live_in_range}
use ds_service.TaskState.{TaskState, ready, undefined, is_live}
use ds_service.ThirdParty.{ThirdParty, count, subscript, subscript-value, find-subscript}

pub ready_in_range :
    (states : List TaskState) (i : ℕ) → get_or states i undefined ≡ ready → i < length states
unfolding is_live
ready_in_range states i h = live_in_range states i (rw h)

-- An entry pushed as often as its row names the queue.
times : ℕ → TaskQueue → TaskQueueEntry → TaskQueue
times zero q e = q
times (suc n) q e = times n (push q e) e

module _ (e : TaskQueueEntry) where
  In-times : (n : ℕ) (q : TaskQueue) (y : TaskQueueEntry) → In y q → In y (times n q e)
  unfolding times
  In-times zero q y h = h
  In-times (suc n) q y h = In-times n (push q e) y (In-push e q y h)

  In-times_self : (n : ℕ) (q : TaskQueue) → 0 < n → In e (times n q e)
  unfolding times
  In-times_self zero q h = absurd (omega arith)
  In-times_self (suc n) q h = In-times n (push q e) e (In-push_self e q)

  All-times :
      (Q : TaskQueueEntry → Type 0) (n : ℕ) (q : TaskQueue)
      → (0 < n → Q e)
      → All Q q
      → All Q (times n q e)
  unfolding times
  All-times Q zero q h a = a
  All-times Q (suc n) q h a =
      All-times Q n (push q e) (λ _. h (omega arith)) (All-push e Q q (h (omega arith)) a)

  IsSorted-times :
      (n : ℕ) (q : TaskQueue) → IsNumber e → All IsNumber q → IsSorted q → IsSorted (times n q e)
  unfolding times
  IsSorted-times zero q ne nq s = s
  IsSorted-times (suc n) q ne nq s =
      IsSorted-times n (push q e) ne (All-push e IsNumber q ne nq) (IsSorted-push e q ne nq s)

one-add : (n : ℕ) → 1 + n ≡ suc n
one-add n = omega arith

zero-add : (n : ℕ) → 0 + n ≡ n
zero-add n = omega arith

module _ (P : ThirdParty) where
  pub entries_at-assign :
      (queue : P.HashMap TaskQueue) (name : String) (v : TaskQueue) (q : String)
      → entries_at P (P.assign queue name v) q ≡ (if name == q then v else entries_at P queue q)
  entries_at-assign queue name v q = ground (arith, P.find-assign queue name v q)

  -- One round of the loop over the queues of a row.
  push_one : P.HashMap TaskQueue → String → TaskQueueEntry → P.HashMap TaskQueue
  push_one queue name e =
      let (task_queue, entered) = subscript P.maps [] queue name in
      P.assign entered name (push task_queue e)

  entries_at-push_one :
      (queue : P.HashMap TaskQueue) (name : String) (e : TaskQueueEntry) (q : String)
      → entries_at P (push_one queue name e) q
        ≡ (if name == q then push (entries_at P queue q) e else entries_at P queue q)
  unfolding push_one
  entries_at-push_one queue name e q = ground (
    arith,
    subscript-value P.maps [] queue name,
    find-subscript P.maps [] queue name q,
    P.find-assign (subscript P.maps [] queue name).1 name
        (push (subscript P.maps [] queue name).0 e) q,
    eq_iff name q,
  )

  entries_at-push_each :
      (queue : P.HashMap TaskQueue) (names : List String) (e : TaskQueueEntry) (q : String)
      → entries_at P (push_each P queue names e) q ≡ times (count q names) (entries_at P queue q) e
  unfolding push_each times count push_one
  entries_at-push_each queue [] e q = refl
  entries_at-push_each queue (name ∷ names) e q = elim (Bool-cases (name == q)) [
    | inl hit ↦
        entries_at-push_each (push_one queue name e) names e q
        ∙ rw (entries_at-push_one queue name e q, hit, one-add) refl
    | inr miss ↦
        entries_at-push_each (push_one queue name e) names e q
        ∙ rw (entries_at-push_one queue name e q, miss, zero-add) refl
  ]

  -- The seq that a row takes, unless the counter is at its end.
  pub next_seq-enqueue :
      (m : TaskManager P) (i : ℕ)
      → m.next_seq + 1 < 2 ^ 64
      → (enqueue P m i).next_seq ≡ suc m.next_seq
  unfolding enqueue
  next_seq-enqueue m i room = omega arith

-- The row `i` of `m` is Ready, and the counter has room.
module _ (P : ThirdParty) (m : TaskManager P) (i k : ℕ) (a : IsAligned m.tasks)
    (r : state_at m.tasks i ≡ ready) (room : m.next_seq + 1 < 2 ^ 64) (w : IsQueuedBut P i m) where
  abbrev fresh : ℕ
  fresh = (m.next_seq + 1) % 2 ^ 64

  fresh_lem : fresh ≡ suc m.next_seq
  fresh_lem = omega arith

  abbrev entered : TaskQueueEntry
  entered = record { priority = priority_at m.tasks i; seq = fresh; index = i }

  abbrev stamped : TaskTable
  stamped = record m.tasks { seq = set m.tasks.seq i fresh }

  in_range : i < length m.tasks.seq
  in_range = ground (arith, a, ready_in_range m.tasks.state i r)

  seq_at-stamped : (j : ℕ) → seq_at stamped j ≡ (if eqb i j then fresh else seq_at m.tasks j)
  seq_at-stamped j = ground (arith, get_or-set m.tasks.seq i fresh j 0, in_range)

  entered-IsEntry :
      (q : String) → 0 < count q (queues_at m.tasks i) → IsEntry stamped fresh k q entered
  entered-IsEntry q h = record {
    number = w.numbers i;
    old = omega arith;
    listed = h;
    current = λ _ _ _. refl;
  }

  old-IsEntry :
      (q : String) (e : TaskQueueEntry)
      → IsEntry m.tasks m.next_seq i q e
      → IsEntry stamped fresh k q e
  old-IsEntry q e x = record {
    number = x.number;
    old = omega (arith, x.old, fresh_lem);
    listed = x.listed;
    current = λ _ s same_seq. elim (Bool-cases (eqb i e.index)) [
      | inl hit ↦ absurd (ground (arith, seq_at-stamped e.index, x.old, fresh_lem))
      | inr miss ↦ x.current (ground arith) s (ground (arith, seq_at-stamped e.index))
    ];
  }

  present-stamped :
      (j : ℕ) (q : String)
      → state_at m.tasks j ≡ ready
      → 0 < count q (queues_at m.tasks j)
      → In
          (entry_of stamped j)
          (times (count q (queues_at m.tasks i)) (entries_at P m.queue q) entered)
  present-stamped j q s h = elim (Bool-cases (eqb i j)) [
    | inl hit ↦
        let same_row = eqb→eq i j hit in
        subst (λ x. In x (times (count q (queues_at m.tasks i)) (entries_at P m.queue q) entered))
          (ground (arith, seq_at-stamped j, same_row))
          (In-times_self entered (count q (queues_at m.tasks i)) (entries_at P m.queue q)
            (rw same_row h))
    | inr miss ↦
        subst (λ x. In x (times (count q (queues_at m.tasks i)) (entries_at P m.queue q) entered))
          (ground (arith, seq_at-stamped j, miss))
          (In-times entered (count q (queues_at m.tasks i)) (entries_at P m.queue q)
            (entry_of m.tasks j) (w.present j q (ground arith) s h))
  ]

  -- A Ready row that was left out is left out no more once it is enqueued.
  pub enqueue-IsQueued : IsQueuedBut P k (enqueue P m i)
  unfolding enqueue
  enqueue-IsQueued = record {
    numbers = w.numbers;
    sorted = λ q. rw (entries_at-push_each P m.queue (queues_at m.tasks i) entered q) (
        IsSorted-times entered _ _ (w.numbers i)
          (All-map (IsEntry m.tasks m.next_seq i q) IsNumber _ (λ e x. x.number) (w.entries q))
          (w.sorted q));
    entries = λ q. rw (entries_at-push_each P m.queue (queues_at m.tasks i) entered q) (
        All-times entered (IsEntry stamped fresh k q) _ _ (entered-IsEntry q) (
          All-map (IsEntry m.tasks m.next_seq i q) (IsEntry stamped fresh k q) _ (old-IsEntry q)
            (w.entries q)));
    present = λ j q nk s h.
        rw (entries_at-push_each P m.queue (queues_at m.tasks i) entered q)
          (present-stamped j q s h);
  }
