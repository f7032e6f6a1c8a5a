-- ===== src/TaskManager/Dispatch.antt =====
-- The queues and the table: every Ready row stands in each of its queues with its priority and its seq,
-- each queue is sorted, and no other entry is taken for a row that is Ready.
pub mod Enqueue
pub mod Carry
pub mod Endings
pub mod Release
pub mod Requests
pub mod Add
pub mod Get
use ds_service.Base.{
  ℕ, zero, suc, ◌<◌, ◌≤◌, ◌≡◌, ◌≢◌, refl, String, false, true, none, some, List, [], length, ◌∷◌,
  get_or, arith, inl, inr,
}
use ds_service.Double.{is_nan}
use ds_service.TaskManager.Queue.{TaskQueue, TaskQueueEntry}
use ds_service.TaskManager.Queue.Entries.{In, All, IsSorted}
use ds_service.TaskManager.State.{TaskTable, TaskManager, state_at, seq_at, priority_at, queues_at}
use ds_service.TaskState.{ready}
use ds_service.ThirdParty.{ThirdParty, count}

-- The entry by which a Ready row is found.
abbrev pub entry_of : TaskTable → ℕ → TaskQueueEntry
entry_of t i = record { priority = priority_at t i; seq = seq_at t i; index = i }

-- What holds of an entry in the queue `q`, but that the row `k` may not be told by its seq yet.
pub record IsEntry (t : TaskTable) (next_seq : ℕ) (k : ℕ) (q : String) (e : TaskQueueEntry)
    : Type 0 where
  pub number : is_nan e.priority ≡ false
  pub old : e.seq ≤ next_seq
  pub listed : 0 < count q (queues_at t e.index)
  pub current :
      e.index ≢ k
      → state_at t e.index ≡ ready
      → e.seq ≡ seq_at t e.index
      → e.priority ≡ priority_at t e.index

module _ (P : ThirdParty) where
  abbrev pub entries_at : P.HashMap TaskQueue → String → TaskQueue
  entries_at queue q = elim (P.find queue q) [ none ↦ [] | some task_queue ↦ task_queue ]

  -- The invariant, with the row `k` left out.
  pub record IsQueuedBut (k : ℕ) (m : TaskManager P) : Type 0 where
    pub numbers : (i : ℕ) → is_nan (priority_at m.tasks i) ≡ false
    pub sorted : (q : String) → IsSorted (entries_at m.queue q)
    pub entries : (q : String) → All (IsEntry m.tasks m.next_seq k q) (entries_at m.queue q)
    pub present :
        (i : ℕ) (q : String)
        → i ≢ k
        → state_at m.tasks i ≡ ready
        → 0 < count q (queues_at m.tasks i)
        → In (entry_of m.tasks i) (entries_at m.queue q)

  -- The invariant: no row is left out, since no row stands at the end of the table.
  abbrev pub IsQueued : TaskManager P → Type 0
  IsQueued m = IsQueuedBut (length m.tasks.task_id) m
