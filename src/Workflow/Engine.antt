-- ===== src/Workflow/Engine.antt =====
-- src/workflow/workflow.service.ts: the operations of the engine, each a function of the database.
pub mod Lookup
pub mod Gates
pub mod Start
pub mod Transition
pub mod Prepare
pub mod Commit
pub mod Invariant
pub mod Listing
pub mod Terminal
pub mod Sample
mod Tests
