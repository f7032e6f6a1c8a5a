-- ===== src/TaskState.antt =====
-- cpp/common/include/ds-service/task-state.hpp: the states of a task.
use ds_service.Base.{Bool, true, false, ◌||◌}

pub data TaskState : Type 0 where
  waiting ready running finished failed canceled undefined : TaskState

-- a == b
unfoldable pub same : TaskState → TaskState → Bool
same waiting waiting = true
same ready ready = true
same running running = true
same finished finished = true
same failed failed = true
same canceled canceled = true
same undefined undefined = true
same _ _ = false

-- The test of task_cancel and of the walk over the children: the task has not ended.
unfoldable pub is_live : TaskState → Bool
unfolding same
is_live s = same s waiting || (same s ready || same s running)
