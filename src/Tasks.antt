-- ===== src/Tasks.antt =====
-- src/tasks: tasks, and the recurring jobs that create them.
pub mod Types
pub mod Work
pub mod Recurring
pub mod Listing
pub mod Marking
pub mod Runs
mod Tests
