-- ===== src/Trips/Dto.antt =====
-- services/api/src/trips/dto: create-trip.dto.ts, update-trip.dto.ts and schedule-trips.dto.ts
use school_van_tracking_saa.Prelude.{ℕ, Option, List}
use school_van_tracking_saa.Schema.{TripDirection, TripStatus}

pub record TripStudentAssignDto : Type 0 where
  pub student_id : ℕ
  pub stop_id : Option ℕ

pub record CreateTripDto : Type 0 where
  pub route_id : ℕ
  pub van_id : ℕ
  pub driver_id : ℕ
  pub trip_date : ℕ
  pub direction : TripDirection
  pub students : Option (List TripStudentAssignDto)

pub record UpdateTripDto : Type 0 where
  pub route_id : Option ℕ
  pub van_id : Option ℕ
  pub driver_id : Option ℕ
  pub trip_date : Option ℕ
  pub direction : Option TripDirection
  pub status : Option TripStatus

pub record ScheduleTripsDto : Type 0 where
  pub route_id : ℕ
  pub trip_date : ℕ
  pub van_id : Option ℕ
  pub driver_id : Option ℕ
