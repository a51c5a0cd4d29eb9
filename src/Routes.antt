-- ===== src/Routes.antt =====
-- The routes of a school: their handlers, and what is proved of them.
pub mod Rows
pub mod Service
pub mod Stops
pub mod Views
pub mod Effects
pub mod Coherence
