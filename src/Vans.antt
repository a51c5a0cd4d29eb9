-- ===== src/Vans.antt =====
-- The vans of a school: their handlers, and what is proved of them.
pub mod Service
pub mod Capacity
pub mod Limits
