-- ===== src/Tests/TripRuns.antt =====
-- Runs of the services of trips on the small school.
use school_van_tracking_saa.Prelude.{
  ℕ, suc, ◌≡◌, refl, inl, inr, none, some, List, [], ◌∷◌, In, count, arith, ok,
}
use school_van_tracking_saa.Schema.{
  Trip, in_progress, scheduled, completed, pickup, dropoff, TripDirection,
}
use school_van_tracking_saa.Tenant.Context.{resolve_school_id}
use school_van_tracking_saa.Fleet.World.{World}
use school_van_tracking_saa.Fleet.Assignment.{is_active_of_driver}
use school_van_tracking_saa.Fleet.Cache.{get_van_driver_assignment}
use school_van_tracking_saa.Trips.Dto.{UpdateTripDto, ScheduleTripsDto}
use school_van_tracking_saa.Trips.Service.{
  check_create, create, check_update, update_trip, get_by_id, assert_references,
}
use school_van_tracking_saa.Trips.Session.{
  start_in_db, check_start, find_own_trip, assert_free, start_trip, stop_trip, stop_in_db,
  check_stop,
}
use school_van_tracking_saa.Trips.Schedule.{schedule_daily, schedule_leg}
use school_van_tracking_saa.Trips.Evolution.{Evolves, UniqueIds}
use school_van_tracking_saa.Trips.Reach.{
  Reach, done, next, started, stopped, Reach-Kept, Reach-terminal,
}
use school_van_tracking_saa.Trips.Exclusive.{
  Exclusive, start_in_db-Exclusive, update_trip-count_active,
}
use school_van_tracking_saa.Trips.Orderly.{Reach-Exclusive}
use school_van_tracking_saa.Trips.Daily.{schedule_daily_idempotent}
use school_van_tracking_saa.Tests.Clients.{first_row, key_space}
use school_van_tracking_saa.Tests.School.{
  admin, driver_user, morning, school_with, world_with, trip_of,
}

morning_unique : UniqueIds morning
morning_unique id = ground arith

morning-Exclusive : Exclusive morning
morning-Exclusive = (λ school who. ground arith, λ school van. ground arith)

abbrev after_start : World key_space
after_start = (start_trip first_row {redis = key_space} 5000 driver_user 10 (world_with morning)).1

abbrev after_stop : World key_space
after_stop = (stop_trip first_row {redis = key_space} 9000 driver_user 10 after_start).1

abbrev day : Reach first_row key_space (world_with morning) after_stop
day = next (started 5000 driver_user 10) (next (stopped 9000 driver_user 10) done)

-- The day ends with the trip completed.
day_ends : after_stop.db.trips ≡ (
    record (trip_of 10 pickup completed) { started_at = some 5000; ended_at = some 9000 }
    ∷ trip_of 11 dropoff completed
    ∷ [])
unfolding start_trip stop_trip start_in_db stop_in_db check_start check_stop find_own_trip
    assert_free
day_ends = refl

Reach-Kept_example : Evolves morning after_stop.db.trips × UniqueIds after_stop.db.trips
Reach-Kept_example =
    Reach-Kept first_row key_space (world_with morning) after_stop day morning_unique

Reach-terminal_example :
    (x : Trip) × In x after_stop.db.trips × (x.id ≡ 11) × (x.status ≡ completed)
Reach-terminal_example =
    Reach-terminal first_row key_space (world_with morning) after_stop
      (trip_of 11 dropoff completed) day morning_unique (inr (inl refl)) (inl refl)

start_in_db-Exclusive_example :
    Exclusive (start_in_db first_row 5000 driver_user 10 (school_with morning)).1.trips
start_in_db-Exclusive_example =
    start_in_db-Exclusive first_row driver_user 10 (school_with morning) morning_unique
      morning-Exclusive 5000

Reach-Exclusive_example : Exclusive after_stop.db.trips
Reach-Exclusive_example =
    Reach-Exclusive first_row key_space (world_with morning) after_stop day (tt, (tt, tt))
      morning_unique morning-Exclusive

abbrev to_in_progress : UpdateTripDto
to_in_progress = record {
  route_id = none;
  van_id = none;
  driver_id = none;
  trip_date = none;
  direction = none;
  status = some in_progress;
}

-- A second trip of a driver who is on the way already.
abbrev busy : List Trip
busy = trip_of 10 pickup scheduled ∷ trip_of 12 dropoff in_progress ∷ []

update_trip-count_active_example :
    count
      (is_active_of_driver 1 5)
      (update_trip first_row admin 10 to_in_progress (school_with busy)).1.trips
    ≡ 2
unfolding check_update get_by_id assert_references resolve_school_id
update_trip-count_active_example =
    update_trip-count_active first_row admin 10 (school_with busy) to_in_progress
      (trip_of 10 pickup scheduled) (λ id. ground arith) refl refl refl

abbrev tomorrow : ScheduleTripsDto
tomorrow = record { route_id = 2; trip_date = 101; van_id = none; driver_id = some 5 }

abbrev ids_from : ℕ → TripDirection → ℕ
ids_from n pickup = n
ids_from n _ = suc n

schedule_daily_idempotent_example :
    schedule_daily first_row 2000000
      (ids_from 30)
      admin
      tomorrow
      (schedule_daily first_row 1000000 (ids_from 20) admin tomorrow (world_with morning)).1
    ≡ (
      ok (0, []),
      (schedule_daily first_row 1000000 (ids_from 20) admin tomorrow (world_with morning)).1,
    )
unfolding schedule_daily schedule_leg create check_create get_by_id resolve_school_id
    get_van_driver_assignment
schedule_daily_idempotent_example =
    schedule_daily_idempotent first_row key_space 1000000 2000000 (ids_from 20) (ids_from 30) admin
      tomorrow 5 (world_with morning) (2, 20 ∷ 21 ∷ []) refl refl
