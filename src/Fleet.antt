-- ===== src/Fleet.antt =====
-- The fleet: services/api/src/fleet.
pub mod Validation
pub mod World
pub mod Cache
pub mod Assignment
