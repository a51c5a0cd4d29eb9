-- ===== src/Trips/Session.antt =====
-- services/api/src/tracking/services/trip-session.service.ts. Where the code passes on
-- `user.schoolId!`, the trip that was found has that school, and its school is passed on here.
use school_van_tracking_saa.Prelude.{
  ℕ, ◌/◌, Bool, true, false, Option, none, some, Prisma, Action, pure, throw_if, or_throw, lift,
  find, update, ◌>>=◌, ◌>>◌, not_found, bad_request, forbidden, ◌==◌, not, ◌&&◌, is_value, when,
  trip_not_found, only_drivers_start, only_drivers_stop, driver_profile_not_found, trip_in_progress,
  trip_not_active, trip_not_assigned,
}
use school_van_tracking_saa.Schema.{
  AuthUser, Trip, Driver, Database, driver, in_progress, completed, role_eq, status_eq, trips_table,
  drivers_table, AuditAction, EntityType, log,
}
use school_van_tracking_saa.Redis.{Redis, Value}
use school_van_tracking_saa.Fleet.World.{World, Notice, on_db, on_cache, notify}
use school_van_tracking_saa.Fleet.Assignment.{
  assert_no_active_trip_for_driver, assert_no_active_trip_for_van,
}
use school_van_tracking_saa.Trips.Lifecycle.{assert_transition}
use school_van_tracking_saa.Tracking.Cache.{clear_active_trip, set_driver_online}

-- `schoolId: user.schoolId ?? undefined`: no condition for a user without a school.
abbrev pub in_school_of : Option ℕ → ℕ → Bool
in_school_of none school = true
in_school_of (some own) school = school == own

abbrev pub is_profile_of : AuthUser → Driver → Bool
is_profile_of user x =
    (x.user_id == user.id) && in_school_of user.school_id x.school_id && not x.is_deleted

-- `{ id: tripId, schoolId: user.schoolId!, driverId: driver.id }`, and the `deletedAt: null` that the
-- extension of the Prisma client adds to every find
abbrev pub is_own_trip : AuthUser → ℕ → ℕ → Trip → Bool
is_own_trip user driver_id id t =
    (t.id == id)
    && is_value user.school_id t.school_id
    && (t.driver_id == driver_id)
    && not t.is_deleted

abbrev pub is_running : AuthUser → ℕ → Trip → Bool
is_running user id t =
    (t.id == id)
    && status_eq t.status in_progress
    && in_school_of user.school_id t.school_id
    && not t.is_deleted

abbrev pub started : ℕ → Trip → Trip
started now t = record t { status = in_progress; started_at = some now }

abbrev pub stopped : ℕ → Trip → Trip
stopped now t = record t { status = completed; ended_at = some now }

module _ (prisma : Prisma) where
  abbrev pub get_driver_for_user : AuthUser → Action Database Driver
  get_driver_for_user user = do
    found ← find drivers_table prisma (is_profile_of user)
    or_throw found (forbidden driver_profile_not_found)

  abbrev assigned_to : AuthUser → Trip → Action Database (Unit {0})
  assigned_to user trip = do
    profile ← get_driver_for_user user
    throw_if (not (trip.driver_id == profile.id)) (forbidden trip_not_assigned)

  unfoldable pub assert_active_driver_trip : AuthUser → ℕ → Action Database Trip
  assert_active_driver_trip user trip_id = do
    found ← find trips_table prisma (is_running user trip_id)
    trip ← or_throw found (bad_request trip_not_active)
    when (role_eq user.role driver) (assigned_to user trip)
    pure trip

  -- The driver's trip with the identifier. Where the code goes on with `driver.id`, the trip has
  -- that driver, and its driver is passed on here.
  unfoldable pub find_own_trip : AuthUser → ℕ → Action Database Trip
  find_own_trip user trip_id = do
    profile ← get_driver_for_user user
    found ← find trips_table prisma (is_own_trip user profile.id trip_id)
    or_throw found (not_found trip_not_found)

  unfoldable pub assert_free : Trip → Action Database (Unit {0})
  assert_free trip = do
    assert_no_active_trip_for_driver prisma trip.school_id trip.driver_id
    assert_no_active_trip_for_van prisma trip.school_id trip.van_id

  -- What `startTrip` asks before it writes.
  unfoldable pub check_start : AuthUser → ℕ → Action Database Trip
  check_start user trip_id = do
    throw_if (not (role_eq user.role driver)) (forbidden only_drivers_start)
    trip ← find_own_trip user trip_id
    throw_if (status_eq trip.status in_progress) (bad_request trip_in_progress)
    lift (assert_transition trip.status in_progress)
    assert_free trip
    pure trip

  unfoldable pub start_in_db : ℕ → AuthUser → ℕ → Action Database Trip
  start_in_db now user trip_id = do
    trip ← check_start user trip_id
    update trips_table (λ t. t.id == trip_id) (started now)
    pure trip

  -- What `stopTrip` asks before it writes.
  unfoldable pub check_stop : AuthUser → ℕ → Action Database Trip
  check_stop user trip_id = do
    throw_if (not (role_eq user.role driver)) (forbidden only_drivers_stop)
    trip ← find_own_trip user trip_id
    lift (assert_transition trip.status completed)
    pure trip

  unfoldable pub stop_in_db : ℕ → AuthUser → ℕ → Action Database Trip
  stop_in_db now user trip_id = do
    trip ← check_stop user trip_id
    update trips_table (λ t. t.id == trip_id) (stopped now)
    pure trip

  module _ {redis : Redis Value} (now : ℕ) (user : AuthUser) (trip_id : ℕ) where
    unfoldable pub start_trip : Action (World redis) (Unit {0})
    start_trip = do
      trip ← on_db (start_in_db now user trip_id)
      on_cache (set_driver_online redis (now / 1000) trip.school_id trip.driver_id true)
      on_db (
          log (record {
            school_id = user.school_id;
            actor_user_id = user.id;
            action = AuditAction.start_trip;
            entity_type = EntityType.trip;
            entity_id = some trip_id;
          }))
      notify (Notice.trip_started trip.school_id trip_id trip.direction)

    unfoldable pub stop_trip : Action (World redis) (Unit {0})
    stop_trip = do
      trip ← on_db (stop_in_db now user trip_id)
      on_cache (clear_active_trip redis trip.school_id trip_id (some trip.driver_id))
      on_cache (set_driver_online redis (now / 1000) trip.school_id trip.driver_id false)
      on_db (
          log (record {
            school_id = user.school_id;
            actor_user_id = user.id;
            action = AuditAction.stop_trip;
            entity_type = EntityType.trip;
            entity_id = some trip_id;
          }))
      notify (Notice.trip_completed trip.school_id trip_id trip.direction)
