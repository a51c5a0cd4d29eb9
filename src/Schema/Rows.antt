-- ===== src/Schema/Rows.antt =====
-- The rows of services/api/prisma/schema.prisma, and the authenticated user of
-- services/api/src/auth/types/auth-user.type.ts.
use school_van_tracking_saa.Prelude.{ℕ, Bool, Option, List, ℤ}
use school_van_tracking_saa.Schema.Enums.{
  RoleCode, TripStatus, TripDirection, TripStudentStatus, PermissionKey,
}

pub record Trip : Type 0 where
  pub id : ℕ
  pub school_id : ℕ
  pub route_id : ℕ
  pub van_id : ℕ
  pub driver_id : ℕ
  pub trip_date : ℕ
  pub direction : TripDirection
  pub status : TripStatus
  pub started_at : Option ℕ
  pub ended_at : Option ℕ
  pub is_deleted : Bool

pub record TripStudent : Type 0 where
  pub school_id : ℕ
  pub trip_id : ℕ
  pub student_id : ℕ
  pub stop_id : Option ℕ
  pub status : TripStudentStatus
  pub pickup_at : Option ℕ
  pub drop_at : Option ℕ

pub record Route : Type 0 where
  pub id : ℕ
  pub school_id : ℕ
  pub van_id : Option ℕ
  pub route_code : ℕ
  pub direction : TripDirection
  pub is_active : Bool
  pub is_deleted : Bool

pub record RouteStop : Type 0 where
  pub id : ℕ
  pub school_id : ℕ
  pub route_id : ℕ
  pub stop_order : ℕ
  pub stop_latitude : Option ℤ
  pub stop_longitude : Option ℤ
  pub is_deleted : Bool

pub record Van : Type 0 where
  pub id : ℕ
  pub school_id : ℕ
  pub registration_no : ℕ
  pub capacity : ℕ
  pub is_active : Bool
  pub is_deleted : Bool

pub record Driver : Type 0 where
  pub id : ℕ
  pub school_id : ℕ
  pub user_id : ℕ
  pub license_number : ℕ
  pub is_available : Bool
  pub is_deleted : Bool

pub record Student : Type 0 where
  pub id : ℕ
  pub school_id : ℕ
  pub parent_id : ℕ
  pub route_id : Option ℕ
  pub admission_number : ℕ
  pub home_latitude : Option ℤ
  pub home_longitude : Option ℤ
  pub is_deleted : Bool

pub record Parent : Type 0 where
  pub id : ℕ
  pub school_id : ℕ
  pub user_id : ℕ
  pub is_deleted : Bool

pub record AuthUser : Type 0 where
  pub id : ℕ
  pub school_id : Option ℕ
  pub role : RoleCode
  pub session_id : ℕ
  pub permissions : List PermissionKey
  pub jti : Option ℕ
