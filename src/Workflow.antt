-- ===== src/Workflow.antt =====
-- src/workflow: the engine's tables, its conditions and permissions, the operations on instances, and
-- the report of turnaround times.
pub mod Types
pub mod Conditions
pub mod Permissions
pub mod Engine
pub mod Tat
pub mod Watchdog
