-- ===== src/TaskManager/Steps.antt =====
-- The task manager as a state machine: every operation runs whole under the lock of the manager, so what
-- any number of clients do is a sequence of steps.
pub mod Queues
pub mod Stays
pub mod Endings
pub mod Refusals
pub mod Origins
use ds_service.Base.{ℕ, refl, [], get_or, arith}
use ds_service.Messages.{
  TaskAddRequest, TaskCancelRequest, TaskSetPriorityRequest, TaskGetRequest, TaskDoneRequest,
}
use ds_service.TaskManager.Add.{add}
use ds_service.TaskManager.Cancel.{cancel}
use ds_service.TaskManager.Done.{done}
use ds_service.TaskManager.Get.{get}
use ds_service.TaskManager.Graph.{WellFormed}
use ds_service.TaskManager.Graph.Owed.{occ, owed}
use ds_service.TaskManager.Keeps.Add.{add-WellFormed}
use ds_service.TaskManager.Keeps.Cancel.{cancel-WellFormed}
use ds_service.TaskManager.Keeps.Done.{done-WellFormed}
use ds_service.TaskManager.Keeps.Get.{get-WellFormed}
use ds_service.TaskManager.Keeps.Priority.{set_priority-WellFormed}
use ds_service.TaskManager.Priority.{set_priority}
use ds_service.TaskManager.State.{TaskTable, TaskManager}
use ds_service.ThirdParty.{ThirdParty}

-- The operations that change the manager.
pub data Operation : Type 0 where
  adds : TaskAddRequest → Operation
  cancels : TaskCancelRequest → Operation
  sets_priority : TaskSetPriorityRequest → Operation
  gets : TaskGetRequest → Operation
  dones : TaskDoneRequest → Operation

abbrev pub empty_table : TaskTable
empty_table = record {
  task_id = [];
  function = [];
  input = [];
  output = [];
  state = [];
  worker_id = [];
  priority = [];
  queues = [];
  seq = [];
  pending_parents = [];
  children = [];
  terminal_origin = [];
}

module _ (P : ThirdParty) where
  abbrev pub initial : TaskManager P
  initial = record { tasks = empty_table; task_index = P.empty; next_seq = 0; queue = P.empty }

  unfoldable pub after : TaskManager P → Operation → TaskManager P
  after m (adds request) = (add P m request).1
  after m (cancels request) = (cancel P m request).1
  after m (sets_priority request) = (set_priority P m request).1
  after m (gets request) = (get P m request).1
  after m (dones request) = (done P m request).1

  -- `Steps m n`: a sequence of operations leads from `m` to `n`.
  pub data Steps (m : TaskManager P) : TaskManager P → Type 0 where
    here : Steps m m
    next : {n : TaskManager P} → Steps m n → (op : Operation) → Steps m (after n op)

  pub initial-WellFormed : WellFormed P initial
  unfolding get_or occ owed
  initial-WellFormed = record {
    aligned = ground arith;
    graph = record {
      forward = λ p c h. absurd (omega arith);
      counted = λ c h. refl;
      defined = λ c h. absurd (omega arith);
      held = λ c h. absurd (omega arith);
      released = λ c h. absurd (omega arith);
      ended = λ p c h. absurd (omega arith);
    };
    indexed = record {
      sound = λ id i h. cc (P.find-empty {V = ℕ} id, h);
      complete = λ i h. absurd (omega arith);
    };
  }

  pub after-WellFormed :
      (m : TaskManager P) (op : Operation) → WellFormed P m → WellFormed P (after m op)
  unfolding after
  after-WellFormed m (adds request) w = add-WellFormed P m request w
  after-WellFormed m (cancels request) w = cancel-WellFormed P m request w
  after-WellFormed m (sets_priority request) w = set_priority-WellFormed P m request w
  after-WellFormed m (gets request) w = get-WellFormed P m request w
  after-WellFormed m (dones request) w = done-WellFormed P m request w

  pub Steps-WellFormed : (m n : TaskManager P) → WellFormed P m → Steps m n → WellFormed P n
  Steps-WellFormed m n w here = w
  Steps-WellFormed m n w (next {n = k} s op) = after-WellFormed k op (Steps-WellFormed m k w s)

  -- Whatever the clients do, the manager keeps its invariant: the columns are aligned, the index names
  -- the rows, an edge of the graph leads to a later row, the counts of pending parents are right, and
  -- no child of a failed or canceled row can still run.
  pub reachable-WellFormed : (m : TaskManager P) → Steps initial m → WellFormed P m
  reachable-WellFormed m s = Steps-WellFormed initial m initial-WellFormed s
