-- ===== src/Queue.antt =====
-- src/queue: the durable queue of background jobs.
pub mod Types
pub mod Jobs
pub mod Settle
pub mod Schedule
pub mod Drain
pub mod Rows
pub mod Claim
pub mod Invariant
pub mod Kept
pub mod Steps
pub mod Reach
pub mod Spares
pub mod Stranded
pub mod Exclusive
pub mod Draining
pub mod Listing
mod Sample
mod Tests
