-- ===== src/Tests.antt =====
-- A third-party library in the small, and the theorems at concrete inputs.
pub mod Library
pub mod Answers
pub mod Clients
pub mod Endings
pub mod Process
pub mod Server
pub mod Structures
pub mod Tasks
pub mod Times
