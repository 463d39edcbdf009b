-- ===== src/Crm.antt =====
-- src/crm: who reaches a record.
pub mod Reach
mod Tests
