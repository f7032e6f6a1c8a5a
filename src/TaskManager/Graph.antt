-- ===== src/TaskManager/Graph.antt =====
-- The dependency graph of the task table: how often a row stands among the children of the rows that
-- have not finished, and the predicates on the graph that the operations keep.
pub mod Owed
pub mod Ended
pub mod Parents
pub mod Passed
pub mod Origins
use ds_service.Base.{
  ℕ, suc, ◌+◌, ◌<◌, ◌≡◌, ◌⊎◌, String, Bool, true, false, some, List, [], ◌∷◌, length, get_or, eqb,
  if◌then◌else◌, ◌||◌, ◌≢◌,
}
use ds_service.TaskManager.State.{
  TaskTable, TaskManager, IsAligned, state_at, children_at, pending_at,
}
use ds_service.TaskState.{
  TaskState, waiting, ready, running, finished, failed, canceled, undefined, same, is_live,
}
use ds_service.ThirdParty.{ThirdParty}
use Owed.{occ, owed}

-- A row that ended without finishing: its children can never run.
unfoldable pub is_doomed : TaskState → Bool
unfolding same
is_doomed s = same s failed || same s canceled

-- A row whose parents have all finished.
unfoldable pub is_released : TaskState → Bool
unfolding same
is_released s = same s ready || (same s running || same s finished)

-- The graph. An edge leads from a row to a later one; a count of pending parents is the number of edges
-- from rows that have not finished; the count is zero exactly when it has to be; and no child of a
-- failed or canceled row can still run.
pub record IsGraph (t : TaskTable) : Type 0 where
  pub forward : (p c : ℕ) → 0 < occ c (children_at t p) → (p < c) × (c < length t.task_id)
  pub counted : (c : ℕ) → c < length t.task_id → pending_at t c ≡ owed t.state t.children c
  pub defined : (c : ℕ) → c < length t.task_id → state_at t c ≢ undefined
  pub held : (c : ℕ) → c < length t.task_id → state_at t c ≡ waiting → 0 < pending_at t c
  pub released :
      (c : ℕ) → c < length t.task_id → is_released (state_at t c) ≡ true → pending_at t c ≡ 0
  pub ended :
      (p c : ℕ)
      → 0 < occ c (children_at t p)
      → is_doomed (state_at t p) ≡ true
      → is_live (state_at t c) ≡ false

-- The index names every row by its id, and nothing else.
pub record IsIndexed (P : ThirdParty) (m : TaskManager P) : Type 0 where
  pub sound :
      (id : String) (i : ℕ)
      → P.find m.task_index id ≡ some i
      → (i < length m.tasks.task_id) × (get_or m.tasks.task_id i "" ≡ id)
  pub complete :
      (i : ℕ)
      → i < length m.tasks.task_id
      → P.find m.task_index (get_or m.tasks.task_id i "") ≡ some i

pub record WellFormed (P : ThirdParty) (m : TaskManager P) : Type 0 where
  pub aligned : IsAligned m.tasks
  pub graph : IsGraph m.tasks
  pub indexed : IsIndexed P m
