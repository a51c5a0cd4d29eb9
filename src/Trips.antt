-- ===== src/Trips.antt =====
-- Trips: services/api/src/trips and services/api/src/common/trips.
pub mod Lifecycle
pub mod Dto
pub mod Service
pub mod Evolution
pub mod Checks
pub mod Updates
pub mod History
pub mod Reach
pub mod Exclusive
pub mod Orderly
pub mod Schedule
pub mod Session
pub mod Daily
