-- ===== src/TaskManager/Keeps.antt =====
-- The operations of the task manager keep its invariant.
pub mod Same
pub mod Cancel
pub mod Priority
pub mod Get
pub mod Release
pub mod Done
pub mod Add
