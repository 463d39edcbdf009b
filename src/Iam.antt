-- ===== src/Iam.antt =====
-- src/iam: the guard of the modules that a plan includes.
pub mod Entitlement
mod Tests
