-- ===== src/Task.antt =====
-- The tasks and the scheduler of src/taskschedule.cpp.
pub mod Types
pub mod Run
pub mod Pause
pub mod Schedule
pub mod Registry
pub mod Naps
pub mod Progress
pub mod Follow
pub mod NextBlock
pub mod Rounds
pub mod Extends
pub mod Gensis
pub mod Stores
