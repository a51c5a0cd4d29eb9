-- ===== src/Redis/Values.antt =====
-- The values that the modelled services keep in Redis, read back by `JSON.parse`. Coordinates are in
-- units of 10^-8 degree, speeds in thousandths of a km/h, accuracies in millimetres, instants in
-- milliseconds.
use school_van_tracking_saa.Prelude.{ℕ, Bool, Option, none, some, List, ℤ, Reason}
use school_van_tracking_saa.Schema.{
  AuthUser, Route, RouteStop, PlanTier, BillingStatus, PermissionKey,
}

-- services/api/src/tracking/interfaces/tracking-payload.interface.ts
pub record VanLocationBroadcast : Type 0 where
  pub trip_id : ℕ
  pub school_id : ℕ
  pub van_id : ℕ
  pub driver_id : ℕ
  pub latitude : ℤ
  pub longitude : ℤ
  pub speed : ℕ
  pub heading : ℕ
  pub accuracy : Option ℕ
  pub timestamp : ℕ

-- `GpsIntegrityContext` of services/api/src/tracking/validators/gps-integrity.validator.ts
pub record GpsIntegrityContext : Type 0 where
  pub last_latitude : Option ℤ
  pub last_longitude : Option ℤ
  pub last_timestamp : Option ℕ

-- `features` of `SubscriptionStatusView`
pub record Features : Type 0 where
  pub max_vans : ℕ
  pub max_drivers : ℕ
  pub max_students : ℕ
  pub tracking_logs_per_day : ℕ
  pub analytics_enabled : Bool

pub record Usage : Type 0 where
  pub vans : ℕ
  pub drivers : ℕ
  pub students : ℕ

-- services/api/src/schools/types/subscription-status.type.ts
pub record SubscriptionStatusView : Type 0 where
  pub school_id : ℕ
  pub plan_tier : PlanTier
  pub billing_status : BillingStatus
  pub can_access_platform : Bool
  pub in_trial : Bool
  pub in_grace_period : Bool
  pub is_expired : Bool
  pub trial_ends_at : Option ℕ
  pub ends_at : Option ℕ
  pub grace_ends_at : Option ℕ
  pub message : Option Reason
  pub features : Features
  pub usage : Usage

-- The answer of `findOne` of services/api/src/routes/services/routes.service.ts, by which it is
-- cached.
pub record RouteView : Type 0 where
  pub route : Route
  pub stops : List RouteStop
  pub students : List ℕ
  pub student_count : ℕ
  pub stop_count : ℕ

pub data Value : Type 0 where
  -- the text '1'
  flag : Value
  ident : ℕ → Value
  number : ℕ → Value
  location : VanLocationBroadcast → Value
  sample : GpsIntegrityContext → Value
  session : AuthUser → Value
  status_view : SubscriptionStatusView → Value
  counts : Usage → Value
  permission_keys : List PermissionKey → Value
  route_view : RouteView → Value

abbrev pub as_ident : Option Value → Option ℕ
as_ident (some (ident n)) = some n
as_ident _ = none

abbrev pub as_location : Option Value → Option VanLocationBroadcast
as_location (some (location p)) = some p
as_location _ = none

abbrev pub as_sample : Option Value → Option GpsIntegrityContext
as_sample (some (sample c)) = some c
as_sample _ = none

abbrev pub as_session : Option Value → Option AuthUser
as_session (some (session u)) = some u
as_session _ = none

abbrev pub as_status_view : Option Value → Option SubscriptionStatusView
as_status_view (some (status_view v)) = some v
as_status_view _ = none

abbrev pub as_counts : Option Value → Option Usage
as_counts (some (counts u)) = some u
as_counts _ = none

abbrev pub as_permission_keys : Option Value → Option (List PermissionKey)
as_permission_keys (some (permission_keys ks)) = some ks
as_permission_keys _ = none

abbrev pub as_route_view : Option Value → Option RouteView
as_route_view (some (route_view v)) = some v
as_route_view _ = none
