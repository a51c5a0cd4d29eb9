-- ===== src/Notifications.antt =====
-- Notifications: services/api/src/notifications.
pub mod Throttle
pub mod Limits
pub mod Dispatcher
pub mod Once
pub mod Geofence
pub mod Nearby
pub mod Quiet
