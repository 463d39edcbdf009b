-- ===== src/Jobs.antt =====
-- src/jobs and src/core/tenancy/tenant-bound-sweep.ts: how the scheduled jobs are dispatched, swept
-- over the tenants and recorded.
pub mod Sweep
pub mod Catalogue
pub mod Runs
pub mod Dispatch
mod Tests
