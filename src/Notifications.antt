-- ===== src/Notifications.antt =====
-- src/notifications: the rows, and the sweep that delivers them.
pub mod Types
pub mod Delivery
pub mod Dispatch
pub mod Tries
pub mod Retries
pub mod Batch
mod Tests
