-- ===== src/Market.antt =====
-- The market layer: apps/web/src/market.
mod Tests
mod WorkerTests
pub mod Row
pub mod Ledger
pub mod Exclusion
pub mod Slots
pub mod Gate
pub mod Enforce
pub mod Grader
pub mod Abandon
pub mod Settle
pub mod Dues
pub mod Tick
pub mod Sampler
