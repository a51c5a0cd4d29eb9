-- ===== src/Subscription.antt =====
-- Subscriptions of schools: services/api/src/schools/services/subscription.service.ts.
pub mod Store
pub mod Status
pub mod Service
pub mod Access
pub mod Kept
