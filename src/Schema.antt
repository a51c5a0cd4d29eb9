-- ===== src/Schema.antt =====
-- The enumerations and rows of services/api/prisma/schema.prisma, as far as the modelled services
-- read them. Identifiers are numbers: the code only compares them. Instants are milliseconds.
-- `deletedAt` is kept as the flag `is_deleted`, since the code only tests it for null.
mod Enums
mod Rows
mod Tables
pub use Enums.*
pub use Rows.*
pub use Tables.{
  Database, AuditAction, EntityType, AuditEntry, EmergencyAlert, trips_table, trip_students_table,
  routes_table, stops_table, vans_table, drivers_table, students_table, parents_table, log,
}
