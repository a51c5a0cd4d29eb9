-- ===== src/Tracking.antt =====
-- Live tracking: services/api/src/tracking.
pub mod Cache
pub mod Integrity
pub mod Batch
pub mod Drain
pub mod Service
pub mod Positions
