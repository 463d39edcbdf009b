-- ===== src/Pack.antt =====
-- src/workflow/services/pack-condition.ts and pack-workflow.service.ts: from a pack's workflows to
-- the engine's definitions.
pub mod Lexer
pub mod Condition
pub mod Definition
pub mod Create
mod Tests
