-- ===== src/TaskManager/Keeps/Same.antt =====
-- The parts of the invariant that a change of other columns leaves alone.
use ds_service.Base.{ℕ, ◌≡◌, String, arith, ◌∙◌}
use ds_service.TaskManager.Graph.{IsGraph, IsIndexed, WellFormed}
use ds_service.TaskManager.Graph.Ended.{Ending, Ending-IsGraph}
use ds_service.TaskManager.Propagate.Cells.{SameGraph}
use ds_service.TaskManager.State.{TaskTable, TaskManager, IsAligned}
use ds_service.TaskState.{TaskState}
use ds_service.ThirdParty.{ThirdParty}

pub IsGraph-same :
    (t u : TaskTable)
    → u.task_id ≡ t.task_id
    → u.state ≡ t.state
    → u.pending_parents ≡ t.pending_parents
    → u.children ≡ t.children
    → IsGraph t
    → IsGraph u
IsGraph-same t u ids states counts rows g = record {
  forward = λ p c h. rw ids (g.forward p c (rw rows at h));
  counted = λ c h. rw (states, counts, rows) (g.counted c (rw ids at h));
  defined = λ c h. rw states (g.defined c (rw ids at h));
  held = λ c h w. rw counts (g.held c (rw ids at h) (rw states at w));
  released = λ c h w. rw counts (g.released c (rw ids at h) (rw states at w));
  ended = λ p c h d. rw states (g.ended p c (rw rows at h) (rw states at d));
}

pub SameGraph-IsAligned : (t u : TaskTable) → SameGraph t u → IsAligned t → IsAligned u
SameGraph-IsAligned t u g a = ground arith

module _ (P : ThirdParty) where
  pub IsIndexed-same :
      (m m' : TaskManager P)
      → m'.task_index ≡ m.task_index
      → m'.tasks.task_id ≡ m.tasks.task_id
      → IsIndexed P m
      → IsIndexed P m'
  IsIndexed-same m m' index ids x = record {
    sound = λ id i h. rw ids (x.sound id i (rw index at h));
    complete = λ i h. rw (index, ids) (x.complete i (rw ids at h));
  }

  pub Ending-WellFormed :
      (m m' : TaskManager P) {s : TaskState} {text : String} {origin index : ℕ} {t' : TaskTable}
      → m'.task_index ≡ m.task_index
      → Ending s text origin index m.tasks t' m'.tasks
      → IsAligned t'
      → WellFormed P m
      → WellFormed P m'
  Ending-WellFormed m m' {t' = t'} same_index e a w = record {
    aligned = SameGraph-IsAligned t' m'.tasks e.propagated.same_graph a;
    graph = Ending-IsGraph e w.graph;
    indexed =
        IsIndexed-same m m' same_index (e.propagated.same_graph.task_id ∙ e.task_id) w.indexed;
  }
