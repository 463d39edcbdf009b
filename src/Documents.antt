-- ===== src/Documents.antt =====
-- src/documents: the checklist of a record.
pub mod Ownership
pub mod Checklist
pub mod Outstanding
mod Tests
