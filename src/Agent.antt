-- ===== src/Agent.antt =====
-- The rig's own process: apps/web/src/api/services.
mod LinkTests
mod Tests
pub mod Attempts
pub mod Link
pub mod Restore
pub mod Tasks
