-- ===== src/TaskManager/State.antt =====
-- TaskTable and TaskManager of cpp/server/core/data-structures.hpp, and TaskManager::enqueue.
use ds_service.Base.{ℕ, ◌+◌, ◌%◌, ◌^◌, String, ◌≡◌, List, [], ◌∷◌, length, get_or, set}
use ds_service.Double.{Double, zero_double}
use ds_service.TaskManager.Queue
use ds_service.TaskManager.Queue.{TaskQueue, TaskQueueEntry}
use ds_service.TaskState.{TaskState, undefined}
use ds_service.ThirdParty.{ThirdParty, subscript}

-- One vector per column.
pub record TaskTable : Type 0 where
  pub task_id : List String
  pub function : List String
  pub input : List String
  pub output : List String
  pub state : List TaskState
  pub worker_id : List String
  pub priority : List Double
  pub queues : List (List String)
  pub seq : List ℕ
  pub pending_parents : List ℕ
  pub children : List (List ℕ)
  pub terminal_origin : List ℕ

-- The cells that the code reads by an index.
abbrev pub state_at : TaskTable → ℕ → TaskState
state_at t i = get_or t.state i undefined

abbrev pub children_at : TaskTable → ℕ → List ℕ
children_at t i = get_or t.children i []

abbrev pub seq_at : TaskTable → ℕ → ℕ
seq_at t i = get_or t.seq i 0

abbrev pub priority_at : TaskTable → ℕ → Double
priority_at t i = get_or t.priority i zero_double

abbrev pub queues_at : TaskTable → ℕ → List String
queues_at t i = get_or t.queues i []

abbrev pub pending_at : TaskTable → ℕ → ℕ
pending_at t i = get_or t.pending_parents i 0

abbrev pub origin_at : TaskTable → ℕ → ℕ
origin_at t i = get_or t.terminal_origin i 0

-- Every column has a cell for each row.
pub record IsAligned (t : TaskTable) : Type 0 where
  pub function : length t.function ≡ length t.task_id
  pub input : length t.input ≡ length t.task_id
  pub output : length t.output ≡ length t.task_id
  pub state : length t.state ≡ length t.task_id
  pub worker_id : length t.worker_id ≡ length t.task_id
  pub priority : length t.priority ≡ length t.task_id
  pub queues : length t.queues ≡ length t.task_id
  pub seq : length t.seq ≡ length t.task_id
  pub pending_parents : length t.pending_parents ≡ length t.task_id
  pub children : length t.children ≡ length t.task_id
  pub terminal_origin : length t.terminal_origin ≡ length t.task_id

module _ (P : ThirdParty) where
  pub record TaskManager : Type 0 where
    pub tasks : TaskTable
    pub task_index : P.HashMap ℕ
    pub next_seq : ℕ
    pub queue : P.HashMap TaskQueue

  -- the loop over the queues of a row
  unfoldable pub push_each :
      P.HashMap TaskQueue → List String → TaskQueueEntry → P.HashMap TaskQueue
  unfolding subscript
  push_each queue [] entry = queue
  push_each queue (qname ∷ names) entry =
      let (task_queue, entered) = subscript P.maps [] queue qname in
      push_each (P.assign entered qname (Queue.push task_queue entry)) names entry

  unfoldable pub enqueue : TaskManager → ℕ → TaskManager
  enqueue m index =
      let seq : ℕ = (m.next_seq + 1) % 2 ^ 64 in
      record m {
        tasks = record m.tasks { seq = set m.tasks.seq index seq };
        next_seq = seq;
        queue =
            push_each m.queue (queues_at m.tasks index)
              (record { priority = priority_at m.tasks index; seq = seq; index = index });
      }
