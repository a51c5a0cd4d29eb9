-- ===== src/Tests/School.antt =====
-- A small school: one route with a van, a driver, a student with a parent, and two trips.
use school_van_tracking_saa.Prelude.{ℕ, true, false, none, some, List, [], ◌∷◌}
use school_van_tracking_saa.Schema.{
  Trip, AuthUser, Database, RoleCode, school_admin, pickup, dropoff, scheduled, completed,
  TripStatus, TripDirection, TripStudentStatus,
}
use school_van_tracking_saa.Fleet.World.{World}
use school_van_tracking_saa.Tests.Clients.{key_space, empty_space}

abbrev pub user_of : ℕ → RoleCode → AuthUser
user_of id role = record {
  id = id;
  school_id = some 1;
  role = role;
  session_id = 900;
  permissions = [];
  jti = none;
}

abbrev pub admin : AuthUser
admin = user_of 40 school_admin

abbrev pub driver_user : AuthUser
driver_user = user_of 50 RoleCode.driver

abbrev pub parent_user : AuthUser
parent_user = user_of 70 RoleCode.parent

abbrev pub trip_of : ℕ → TripDirection → TripStatus → Trip
trip_of id direction status = record {
  id = id;
  school_id = 1;
  route_id = 2;
  van_id = 3;
  driver_id = 5;
  trip_date = 100;
  direction = direction;
  status = status;
  started_at = none;
  ended_at = none;
  is_deleted = false;
}

abbrev pub school_with : List Trip → Database
school_with trips = record {
  trips = trips;
  trip_students =
      record {
        school_id = 1;
        trip_id = 10;
        student_id = 6;
        stop_id = none;
        status = TripStudentStatus.pending;
        pickup_at = none;
        drop_at = none;
      }
      ∷ [];
  routes =
      record {
        id = 2;
        school_id = 1;
        van_id = some 3;
        route_code = 21;
        direction = pickup;
        is_active = true;
        is_deleted = false;
      }
      ∷ [];
  stops =
      record {
        id = 81;
        school_id = 1;
        route_id = 2;
        stop_order = 1;
        stop_latitude = none;
        stop_longitude = none;
        is_deleted = false;
      }
      ∷ record {
        id = 82;
        school_id = 1;
        route_id = 2;
        stop_order = 2;
        stop_latitude = none;
        stop_longitude = none;
        is_deleted = false;
      }
      ∷ [];
  vans =
      record {
        id = 3;
        school_id = 1;
        registration_no = 33;
        capacity = 20;
        is_active = true;
        is_deleted = false;
      }
      ∷ record {
        id = 4;
        school_id = 1;
        registration_no = 34;
        capacity = 12;
        is_active = true;
        is_deleted = false;
      }
      ∷ [];
  drivers =
      record {
        id = 5;
        school_id = 1;
        user_id = 50;
        license_number = 51;
        is_available = true;
        is_deleted = false;
      }
      ∷ [];
  students =
      record {
        id = 6;
        school_id = 1;
        parent_id = 7;
        route_id = some 2;
        admission_number = 61;
        home_latitude = none;
        home_longitude = none;
        is_deleted = false;
      }
      ∷ [];
  parents = record { id = 7; school_id = 1; user_id = 70; is_deleted = false } ∷ [];
  audit_log = [];
  emergency_alerts = [];
}

abbrev pub morning : List Trip
morning = trip_of 10 pickup scheduled ∷ trip_of 11 dropoff completed ∷ []

abbrev pub world_with : List Trip → World key_space
world_with trips = record { db = school_with trips; cache = empty_space; notices = [] }
