-- ===== src/Hub.antt =====
-- The hub: apps/web/src/hub.
mod Tests
pub mod Rig
pub mod Lease
pub mod Queue
pub mod Odometer
pub mod Frames
pub mod Registry
pub mod Leaders
pub mod Verbs
pub mod Routes
pub mod Ws
