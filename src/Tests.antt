-- ===== src/Tests.antt =====
-- Concrete clients, a small school, and runs of the services on it.
pub mod Clients
pub mod School
pub mod TripRuns
pub mod FleetRuns
pub mod AuthRuns
pub mod TrackingRuns
pub mod PlanRuns
pub mod Counting
pub mod NotifyRuns
pub mod AccountRuns
pub mod StudentRuns
pub mod RouteRuns
pub mod VanRuns
pub mod StaffRuns
