-- ===== src/Staff.antt =====
-- The drivers and parents of a school with their accounts: their handlers, and what is proved of
-- them.
pub mod Office
pub mod Drivers
pub mod Parents
pub mod Departure
pub mod Creation
