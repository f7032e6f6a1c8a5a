-- ===== src/TaskManager/Dispatch/Get.antt =====
-- TaskManager::get: which task it claims, and that it keeps the invariant of the queues.
pub mod Pop
pub mod Claims
use ds_service.Base.{
  ℕ, ◌<◌, ◌≡◌, ◌≢◌, ◌⊎◌, refl, ap, ◌∙◌, sym, subst, String, true, false, none, some, List, [], ◌∷◌,
  ◌++◌, ◌==◌, eq_iff, length, get_or, set, eqb, arith, inl, inr, Bool-cases, Option-cases,
  get_or-set, ltb, ltb→lt, if◌then◌else◌,
}
use ds_service.Error.{Result, ok, make_error, not_found}
use ds_service.Messages.{TaskGetRequest, TaskGetResponse}
use ds_service.TaskManager.Dispatch.{IsEntry, entry_of, entries_at, IsQueuedBut, IsQueued}
use ds_service.TaskManager.Dispatch.Carry.{Carries, carry, leave_out}
use ds_service.TaskManager.Dispatch.Enqueue.{entries_at-assign, ready_in_range}
use ds_service.TaskManager.Get.{is_dead, pop_usable, claim, get_from, get}
use ds_service.TaskManager.Keeps.Get.{alive-ready, pop_usable-ready}
use ds_service.TaskManager.Queue.{TaskQueue, TaskQueueEntry}
use ds_service.TaskManager.Queue.Entries.{In, All, IsSorted, All-In}
use ds_service.TaskManager.Queue.Order.{Before, Before-refl, IsAhead, Before-IsAhead}
use ds_service.TaskManager.State.{TaskTable, TaskManager, state_at, seq_at, priority_at, queues_at}
use ds_service.TaskState.{ready, running, undefined, same}
use ds_service.ThirdParty.{ThirdParty, count}
use Pop.{alive_entry, alive-seq, pop_none, pop_some, pop-All, pop-IsSorted, pop-Before, pop-In}

-- No task that is Ready waits on the queue `q`.
abbrev pub Idle : TaskTable → String → Type 0
Idle t q = (j : ℕ) → state_at t j ≡ ready → count q (queues_at t j) ≡ 0

-- The row `i` runs for a worker.
unfoldable pub claimed_table : TaskTable → ℕ → String → TaskTable
claimed_table t i worker_id = record t {
  state = set t.state i running;
  worker_id = set t.worker_id i worker_id;
}

-- The row `i` is the best of the queue `q`: it is Ready and waits on `q`, and no Ready row that waits on
-- `q` has a higher priority, nor the same priority and an earlier seq.
pub record IsBest (t : TaskTable) (q : String) (i : ℕ) : Type 0 where
  pub is_ready : state_at t i ≡ ready
  pub listed : 0 < count q (queues_at t i)
  pub best :
      (j : ℕ)
      → state_at t j ≡ ready
      → 0 < count q (queues_at t j)
      → IsAhead (entry_of t i) (entry_of t j)

-- The first queue of the list that is not idle is `q`.
pub data IsFirst (t : TaskTable) (q : String) : List String → Type 0 where
  first : (names : List String) → IsFirst t q (q ∷ names)
  later :
      (name : String) (names : List String)
      → Idle t name
      → IsFirst t q names
      → IsFirst t q (name ∷ names)

abbrev pub AllIdle : TaskTable → List String → Type 0
AllIdle t [] = Unit {0}
AllIdle t (name ∷ names) = Idle t name × AllIdle t names

abbrev pub response_of : TaskTable → ℕ → TaskGetResponse
response_of t i = record {
  task_id = get_or t.task_id i "";
  function = get_or t.function i "";
  input = get_or t.input i "";
}

module _ (P : ThirdParty) where
  -- What task_get answers and what the table is then: the best task of the first listed queue that is
  -- not idle, which then runs for the worker, or the refusal where every listed queue is idle.
  abbrev pub Answers :
      TaskTable → String → List String → Result TaskGetResponse × TaskManager P → Type 0
  Answers t worker_id names r =
      ((i : ℕ) × (q : String) × IsFirst t q names
        × IsBest t q i
        × (r.0 ≡ ok (response_of t i))
        × (r.1.tasks ≡ claimed_table t i worker_id))
      ⊎ (AllIdle t names × (r.0 ≡ make_error not_found "No tasks available.") × (r.1.tasks ≡ t))

  abbrev pub popped : TaskManager P → String → TaskQueue → TaskManager P
  popped m qname q = record m { queue = P.assign m.queue qname (pop_usable m.tasks q).1 }

  pub entries_here :
      (m : TaskManager P) (qname name : String) (q : TaskQueue)
      → P.find m.queue qname ≡ some q
      → (qname == name) ≡ true
      → entries_at P m.queue name ≡ q
  entries_here m qname name q here hit = ground (arith, here, (eq_iff qname name).0 hit)

  -- What holds of the queues after the pop, from what holds of the queue popped and of the others.
  at_popped :
      (R : TaskQueue → Type 0) (m : TaskManager P) (qname name : String) (q : TaskQueue)
      → ((qname == name) ≡ true → R (pop_usable m.tasks q).1)
      → R (entries_at P m.queue name)
      → R (entries_at P (popped m qname q).queue name)
  at_popped R m qname name q hit miss = elim (Bool-cases (qname == name)) [
    | inl e ↦
        subst R (sym (entries_at-assign P m.queue qname (pop_usable m.tasks q).1 name ∙ rw e refl))
          (hit e)
    | inr e ↦
        subst R (sym (entries_at-assign P m.queue qname (pop_usable m.tasks q).1 name ∙ rw e refl))
          miss
  ]

  -- The queues but for the row `k`, whose entry may have been taken out.
  pub popped-IsQueued :
      (m : TaskManager P) (k n : ℕ) (qname : String) (q : TaskQueue)
      → P.find m.queue qname ≡ some q
      → ((i : ℕ)
          → i ≢ k
          → state_at m.tasks i ≡ ready
          → In (entry_of m.tasks i) q
          → In (entry_of m.tasks i) (pop_usable m.tasks q).1)
      → state_at m.tasks n ≢ ready
      → IsQueuedBut P n m
      → IsQueuedBut P k (popped m qname q)
  popped-IsQueued m k n qname q here kept out v' =
      let v = leave_out P n k m out v' in
      record {
        numbers = v.numbers;
        sorted = λ name.
            at_popped IsSorted m qname name q
              (λ e.
                pop-IsSorted m.tasks q
                  (subst IsSorted (entries_here m qname name q here e) (v.sorted name)))
              (v.sorted name);
        entries = λ name.
            at_popped (All (IsEntry m.tasks m.next_seq k name)) m qname name q
              (λ e. pop-All m.tasks (IsEntry m.tasks m.next_seq k name) q (
                subst (All (IsEntry m.tasks m.next_seq k name)) (entries_here m qname name q here e)
                  (v.entries name)))
              (v.entries name);
        present = λ i name nk s h.
            at_popped (In (entry_of m.tasks i)) m qname name q
              (λ e. kept i nk s (
                subst (In (entry_of m.tasks i)) (entries_here m qname name q here e)
                  (v.present i name nk s h)))
              (v.present i name nk s h);
      }

  -- A queue of which every entry is dead is idle.
  pub Idle-if :
      (m : TaskManager P) (name : String)
      → (n : ℕ) → state_at m.tasks n ≢ ready
      → IsQueuedBut P n m
      → ((x : TaskQueueEntry) → In x (entries_at P m.queue name) → is_dead m.tasks x ≡ true)
      → Idle m.tasks name
  Idle-if m name n out v dead j s = elim (Bool-cases (ltb 0 (count name (queues_at m.tasks j)))) [
    | inr h ↦ ground arith
    | inl h ↦ absurd (
        ground (
          arith,
          alive_entry m.tasks j s,
          dead (entry_of m.tasks j) (
              v.present j name (λ e. out (subst (λ i. state_at m.tasks i ≡ ready) e s)) s
                (ltb→lt 0 _ h)),
        ))
  ]

  -- A queue further on in the list.
  pub Answers-later :
      (t : TaskTable) (worker_id name : String) (names : List String)
      (r : Result TaskGetResponse × TaskManager P)
      → Idle t name
      → Answers t worker_id names r
      → Answers t worker_id (name ∷ names) r
  Answers-later t worker_id name names r idle (inl (i, q, at, best, answer, table)) =
      inl (i, q, later name names idle at, best, answer, table)
  Answers-later t worker_id name names r idle (inr (idles, answer, table)) =
      inr ((idle, idles), answer, table)

  -- The entry found is that of the best row of its queue.
  pub found-IsBest :
      (m : TaskManager P) (n : ℕ) (qname : String) (q : TaskQueue) (e : TaskQueueEntry)
      → P.find m.queue qname ≡ some q
      → (pop_usable m.tasks q).0 ≡ some e
      → state_at m.tasks n ≢ ready
      → IsQueuedBut P n m
      → (e ≡ entry_of m.tasks e.index) × IsBest m.tasks qname e.index
  found-IsBest m n qname q e here found out v =
      let alive = pop_usable-ready m.tasks q e found in
      let is_ready = alive-ready m.tasks e alive in
      let this_queue : entries_at P m.queue qname ≡ q = ground (arith, here) in
      let entry =
        All-In (IsEntry m.tasks m.next_seq n qname) q e
          (subst (All (IsEntry m.tasks m.next_seq n qname)) this_queue (v.entries qname))
          (pop-In m.tasks q e found) in
      let itself : e ≡ entry_of m.tasks e.index = ground (
        arith,
        entry.current (λ x. out (subst (λ i. state_at m.tasks i ≡ ready) x is_ready)) is_ready
            (alive-seq m.tasks e alive),
        alive-seq m.tasks e alive,
      ) in
      (
        itself,
        record {
          is_ready = is_ready;
          listed = entry.listed;
          best = λ j s h. Before-IsAhead (entry_of m.tasks e.index) (entry_of m.tasks j) (
              subst (λ x. Before x (entry_of m.tasks j)) itself
                (elim (pop_some m.tasks q e (entry_of m.tasks j) found
                  (subst (In (entry_of m.tasks j)) this_queue (
                    v.present j qname (λ x. out (subst (λ i. state_at m.tasks i ≡ ready) x s)) s h))
                  (alive_entry m.tasks j s)) [
                    | inl p ↦ subst (Before e) (sym p) (Before-refl e)
                    | inr k ↦
                        All-In (Before e) (pop_usable m.tasks q).1 (entry_of m.tasks j)
                          (pop-Before m.tasks q e (subst IsSorted this_queue (v.sorted qname))
                            found)
                          k
                  ]));
        },
      )

  pub claim-IsQueued :
      (m : TaskManager P) (e : TaskQueueEntry) (n : ℕ) (worker_id : String)
      → state_at m.tasks e.index ≡ ready
      → IsQueuedBut P e.index m
      → IsQueuedBut P n (claim P m e worker_id).1
  unfolding claim
  claim-IsQueued m e n worker_id s v =
      leave_out P e.index n (claim P m e worker_id).1
        (λ h. ground (
          arith,
          get_or-set m.tasks.state e.index running e.index undefined,
          ready_in_range m.tasks.state e.index s,
        ))
        (carry P e.index m (claim P m e worker_id).1 refl refl
          (record {
            numbers = v.numbers;
            priority = λ j _. refl;
            seq = λ j _. refl;
            queues = λ j _. refl;
            ready_before =
                λ j _ h. ground (arith, get_or-set m.tasks.state e.index running j undefined);
            listed = λ j q h. h;
          })
          v)
