-- ===== src/TaskManager.antt =====
-- cpp/server/core/task-manager.cpp: the task queue.
pub mod Queue
pub mod State
pub mod Propagate
pub mod Add
pub mod Reads
pub mod Cancel
pub mod Priority
pub mod Get
pub mod Done
pub mod Graph
pub mod Keeps
pub mod Dispatch
pub mod Steps
pub mod Progress
