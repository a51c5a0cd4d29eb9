-- ===== src/Schema/Enums.antt =====
-- The enumerations of services/api/prisma/schema.prisma, with their Boolean equality.
use school_van_tracking_saa.Prelude.{Bool, true, false, ◌≡◌, ◌↔◌, arith}

pub data RoleCode : Type 0 where
  super_admin school_admin driver parent : RoleCode

pub data TripStatus : Type 0 where
  scheduled in_progress completed cancelled : TripStatus

pub data TripDirection : Type 0 where
  pickup dropoff return : TripDirection

pub data TripStudentStatus : Type 0 where
  pending picked dropped absent : TripStudentStatus

pub data SessionStatus : Type 0 where
  active revoked expired : SessionStatus

pub data PlanTier : Type 0 where
  basic standard premium : PlanTier

pub data SchoolOperationalStatus : Type 0 where
  pending active suspended trial : SchoolOperationalStatus

pub data BillingStatus : Type 0 where
  trial active past_due cancelled grace : BillingStatus

-- `PERMISSIONS` of services/api/src/auth/constants/permissions.ts
pub data PermissionKey : Type 0 where
  schools_manage schools_view drivers_create drivers_manage students_create : PermissionKey
  students_manage parents_manage vans_manage routes_manage trips_track : PermissionKey
  trips_manage reports_view users_manage subscriptions_manage : PermissionKey
  notifications_send : PermissionKey

-- `===` on the enumerations.
abbrev pub role_eq : RoleCode → RoleCode → Bool
role_eq super_admin super_admin = true
role_eq school_admin school_admin = true
role_eq driver driver = true
role_eq parent parent = true
role_eq _ _ = false

abbrev pub status_eq : TripStatus → TripStatus → Bool
status_eq scheduled scheduled = true
status_eq in_progress in_progress = true
status_eq completed completed = true
status_eq TripStatus.cancelled TripStatus.cancelled = true
status_eq _ _ = false

abbrev pub direction_eq : TripDirection → TripDirection → Bool
direction_eq pickup pickup = true
direction_eq dropoff dropoff = true
direction_eq return return = true
direction_eq _ _ = false

abbrev pub session_eq : SessionStatus → SessionStatus → Bool
session_eq SessionStatus.active SessionStatus.active = true
session_eq revoked revoked = true
session_eq expired expired = true
session_eq _ _ = false

abbrev pub billing_eq : BillingStatus → BillingStatus → Bool
billing_eq BillingStatus.trial BillingStatus.trial = true
billing_eq BillingStatus.active BillingStatus.active = true
billing_eq past_due past_due = true
billing_eq BillingStatus.cancelled BillingStatus.cancelled = true
billing_eq grace grace = true
billing_eq _ _ = false

abbrev pub operational_eq : SchoolOperationalStatus → SchoolOperationalStatus → Bool
operational_eq SchoolOperationalStatus.pending SchoolOperationalStatus.pending = true
operational_eq SchoolOperationalStatus.active SchoolOperationalStatus.active = true
operational_eq suspended suspended = true
operational_eq SchoolOperationalStatus.trial SchoolOperationalStatus.trial = true
operational_eq _ _ = false

pub status_eq_iff : (s t : TripStatus) → (status_eq s t ≡ true) ↔ (s ≡ t)
status_eq_iff s t = ground arith

pub data NotificationType : Type 0 where
  van_within_1km van_within_500m student_picked student_dropped : NotificationType
  van_reached_school return_trip_started sos_emergency driver_offline : NotificationType
  trip_delayed subscription_expiry school_announcement : NotificationType
