-- ===== src/TaskManager/Propagate.antt =====
pub mod Cells
pub mod Fuel
pub mod Reach
pub mod Outcomes
use ds_service.Base.{ℕ, zero, suc, ◌+◌, String, List, [], ◌∷◌, length, get_or, set, if◌then◌else◌}
use ds_service.TaskManager.State.{TaskTable, state_at, children_at}
use ds_service.TaskState.{TaskState, failed, is_live, same}
use ds_service.ThirdParty.{ThirdParty}

module _ (P : ThirdParty) where
  unfoldable pub terminal_output : TaskTable → TaskState → ℕ → String
  terminal_output t state origin =
      if same state failed
      then P.format "Dependency failed (task_id={})" (get_or t.task_id origin "" ∷ [])
      else "Task canceled"

-- One row takes its ending.
unfoldable pub end_row : TaskTable → TaskState → String → ℕ → ℕ → TaskTable
end_row t state output origin current = record t {
  state = set t.state current state;
  worker_id = set t.worker_id current "";
  output = set t.output current output;
  terminal_origin = set t.terminal_origin current origin;
}

-- The vector `pending` is a stack whose back is the head of the list here.
unfoldable pub push_all : List ℕ → List ℕ → List ℕ
push_all pending [] = pending
push_all pending (child ∷ children) = push_all (child ∷ pending) children

-- The loop `while (!pending.empty())`, with fuel. The second result is what is left in `pending`.
unfoldable pub walk : ℕ → TaskState → String → ℕ → TaskTable → List ℕ → TaskTable × List ℕ
unfolding end_row push_all
walk zero state output origin t pending = (t, pending)
walk (suc fuel) state output origin t [] = (t, [])
walk (suc fuel) state output origin t (current ∷ pending) =
    let ended = end_row t state output origin current in
    let skipped = walk fuel state output origin t pending in
    let marked = walk fuel state output origin ended (push_all pending (children_at t current)) in
    if is_live (state_at t current) then marked else skipped

unfoldable pub edges : List (List ℕ) → ℕ
edges [] = 0
edges (cs ∷ rows) = length cs + edges rows

module _ (P : ThirdParty) where
  -- A walk visits every edge of the graph at most once, and first those of the row itself.
  unfoldable pub propagate_to_children : TaskTable → ℕ → TaskState → ℕ → TaskTable
  unfolding push_all edges
  propagate_to_children t index state origin =
      let children = children_at t index in
      (walk (length children + edges t.children) state (terminal_output P t state origin) origin t
        (push_all [] children)).0
