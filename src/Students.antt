-- ===== src/Students.antt =====
-- Students: services/api/src/students.
pub mod Service
pub mod Import
pub mod Counts
