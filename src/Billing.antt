-- ===== src/Billing.antt =====
-- src/billing: the fee schedule of a pack, its payment plans, and the payments that they expand to.
-- Money is in minor units.
pub mod Types
pub mod Split
pub mod Fees
pub mod Expand
pub mod Overrides
mod Tests
