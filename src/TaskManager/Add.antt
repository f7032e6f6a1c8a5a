-- ===== src/TaskManager/Add.antt =====
-- TaskManager::add.
pub mod Verdict
use ds_service.Base.{
  ℕ, suc, ◌+◌, String, not, ◌||◌, Option, none, some, List, [], ◌∷◌, length, get_or, set, push_back,
  if◌then◌else◌,
}
use ds_service.Error.{Result, ok, unexpected, make_error, already_exists, not_found}
use ds_service.Messages.{TaskAddRequest}
use ds_service.TaskManager.Propagate.{terminal_output}
use ds_service.TaskManager.State.{TaskTable, TaskManager, state_at, origin_at, enqueue}
use ds_service.TaskState.{TaskState, waiting, ready, finished, failed, canceled, same}
use ds_service.ThirdParty.{ThirdParty}

-- What the loop over the parents collects.
pub record ParentScan : Type 0 where
  pub pending_parents : ℕ
  pub canceled_parent : Option ℕ
  pub failed_parent : Option ℕ

-- `if (!found && tasks.state[parent] == wanted) found = parent;`
unfoldable pub first_in : TaskState → TaskTable → ℕ → Option ℕ → Option ℕ
first_in wanted t parent (some found) = some found
first_in wanted t parent none = if same (state_at t parent) wanted then some parent else none

-- the body of the loop over the parents
unfoldable pub scan_parent : TaskTable → ℕ → ParentScan → ParentScan
unfolding first_in
scan_parent t parent scan = record {
  pending_parents =
      if not (same (state_at t parent) finished)
      then scan.pending_parents + 1
      else scan.pending_parents;
  canceled_parent = first_in canceled t parent scan.canceled_parent;
  failed_parent = first_in failed t parent scan.failed_parent;
}

unfoldable pub scan_parents : TaskTable → List ℕ → ParentScan → ParentScan
unfolding scan_parent
scan_parents t [] scan = scan
scan_parents t (parent ∷ parents) scan = scan_parents t parents (scan_parent t parent scan)

abbrev pub no_parents : ParentScan
no_parents = record { pending_parents = 0; canceled_parent = none; failed_parent = none }

-- The state and the origin of the new row `index`.
unfoldable pub decide : TaskTable → ℕ → ParentScan → TaskState × ℕ
decide t index scan = elim scan.failed_parent [
  | some parent ↦ (failed, origin_at t parent)
  | none ↦ elim scan.canceled_parent [
    | some parent ↦ (canceled, origin_at t parent)
    | none ↦ elim scan.pending_parents [ suc n ↦ (waiting, index) | _ ↦ (ready, index) ]
  ]
]

-- The row enters the children of each parent that has not finished.
unfoldable pub register : TaskTable → List (List ℕ) → List ℕ → ℕ → List (List ℕ)
register t children [] index = children
register t children (parent ∷ parents) index =
    register t
      (if not (same (state_at t parent) finished)
        then set children parent (push_back (get_or children parent []) index)
        else children)
      parents index

module _ (P : ThirdParty) where
  -- the indices of the parents, or the refusal of the first that is unknown
  unfoldable pub resolve : P.HashMap ℕ → List String → Result (List ℕ)
  resolve task_index [] = ok []
  resolve task_index (id ∷ ids) =
      let rest = resolve task_index ids in
      elim (P.find task_index id) [
        | none ↦ make_error not_found (P.format "Parent task with ID = {} not found." (id ∷ []))
        | some parent ↦ elim rest [
          | ok parents ↦ ok (parent ∷ parents)
          | unexpected e ↦ unexpected e
        ]
      ]

  -- The columns with the new row at their end.
  unfoldable pub push_row : TaskTable → TaskAddRequest → TaskState → ℕ → ℕ → TaskTable
  push_row t request state pending_parents origin = record {
    task_id = push_back t.task_id request.task_id;
    function = push_back t.function request.function;
    input = push_back t.input request.input;
    output =
        push_back t.output (
          if same state failed || same state canceled
          then terminal_output P t state origin
          else "");
    state = push_back t.state state;
    worker_id = push_back t.worker_id "";
    priority = push_back t.priority request.priority;
    queues = push_back t.queues request.queue;
    seq = push_back t.seq 0;
    pending_parents = push_back t.pending_parents pending_parents;
    children = push_back t.children [];
    terminal_origin = push_back t.terminal_origin origin;
  }

  -- `add` once the parents are resolved.
  unfoldable pub add_row : TaskManager P → TaskAddRequest → List ℕ → TaskManager P
  unfolding scan_parents decide push_row register
  add_row m request parents =
      let scan = scan_parents m.tasks parents no_parents in
      let index = length m.tasks.task_id in
      let (state, origin) = decide m.tasks index scan in
      let pushed = push_row m.tasks request state scan.pending_parents origin in
      let added : TaskManager P = record m {
        tasks = record pushed { children = register pushed pushed.children parents index };
        task_index = P.assign m.task_index request.task_id index;
      } in
      if same state ready then enqueue P added index else added

  unfoldable pub add : TaskManager P → TaskAddRequest → Result (Unit {0}) × TaskManager P
  unfolding resolve add_row
  add m request = elim (P.find m.task_index request.task_id) [
    | some _ ↦ (
      make_error already_exists
          (P.format "Task with ID = {} already exists." (request.task_id ∷ [])),
      m,
    )
    | none ↦ elim (resolve m.task_index request.parent_task_ids) [
      | unexpected e ↦ (unexpected e, m)
      | ok parents ↦ (ok tt, add_row m request parents)
    ]
  ]
