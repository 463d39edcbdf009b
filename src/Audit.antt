-- ===== src/Audit.antt =====
-- src/audit: the log of what was done, chained by hashes, and its retention.
pub mod Types
pub mod Write
pub mod Read
pub mod Retention
pub mod Chain
pub mod Integrity
pub mod Archived
mod Tests
