-- ===== src/Tracking/Service.antt =====
-- services/api/src/tracking/services/tracking.service.ts. What is published, and the queue of the
-- batch service, are lists; `runGeofenceAndEta` and the analytics job, which run on their own after
-- a position was accepted and whose errors are only logged, are not modelled.
use school_van_tracking_saa.Prelude.{
  ℕ, ◌/◌, Bool, true, false, Option, none, some, List, [], ◌∷◌, ◌++◌, ℤ, Prisma, Action, ok, pure,
  lift, gets, modify, update, ◌>>=◌, ◌>>◌, ◌==◌, ◌&&◌,
}
use school_van_tracking_saa.Schema.{
  AuthUser, Trip, TripStudent, TripStudentStatus, Database, trip_students_table,
}
use school_van_tracking_saa.Redis.{Redis, Value, VanLocationBroadcast}
use school_van_tracking_saa.Tenant.Context.{resolve_school_id}
use school_van_tracking_saa.Tenant.Store.{TenantStore, in_scope}
use school_van_tracking_saa.Fleet.World.{World, Notice, on_db, on_cache, notify}
use school_van_tracking_saa.Trips.Session.{assert_active_driver_trip}
use school_van_tracking_saa.Tracking.Cache.{
  set_last_known_position, get_trip_location, should_throttle,
}
use school_van_tracking_saa.Tracking.Integrity.{Distance, GpsIntegrityInput, assert_position}

-- `TrackingUpdateDto`
pub record TrackingUpdateDto : Type 0 where
  pub trip_id : ℕ
  pub latitude : ℤ
  pub longitude : ℤ
  pub speed : ℕ
  pub heading : ℕ
  pub accuracy : Option ℕ
  pub timestamp : ℕ
  pub is_mocked : Bool

pub record Live (redis : Redis Value) : Type 0 where
  pub world : World redis
  pub published : List VanLocationBroadcast
  -- what was passed to `trackingBatch.enqueue`
  pub enqueued : List VanLocationBroadcast

abbrev pub min_gps_interval_ms : ℕ
min_gps_interval_ms = 3000

abbrev pub position_of : TrackingUpdateDto → GpsIntegrityInput
position_of dto = record {
  latitude = dto.latitude;
  longitude = dto.longitude;
  speed = dto.speed;
  accuracy = dto.accuracy;
  timestamp = dto.timestamp;
  is_mocked = dto.is_mocked;
}

abbrev pub broadcast_of : Trip → TrackingUpdateDto → VanLocationBroadcast
broadcast_of trip dto = record {
  trip_id = trip.id;
  school_id = trip.school_id;
  van_id = trip.van_id;
  driver_id = trip.driver_id;
  latitude = dto.latitude;
  longitude = dto.longitude;
  speed = dto.speed;
  heading = dto.heading;
  accuracy = dto.accuracy;
  timestamp = dto.timestamp;
}

-- `{ tripId_studentId: { tripId, studentId } }`
abbrev pub is_rider : ℕ → ℕ → TripStudent → Bool
is_rider trip student ts = (ts.trip_id == trip) && (ts.student_id == student)

-- The same with what the extension of the Prisma client adds for the tenant of the request. (No
-- code deletes a row of `trip_students`.)
abbrev pub marks : Option TenantStore → ℕ → ℕ → TripStudent → Bool
marks store trip student ts = is_rider trip student ts && in_scope store ts.school_id

module _ (redis : Redis Value) where
  abbrev throttle_check : ℕ → ℕ → Action redis.Store Bool
  throttle_check now trip c =
      let (hit, c') = should_throttle redis (now / 1000) trip min_gps_interval_ms c in (ok hit, c')

  -- The cached position, if the trip is throttled and has one.
  abbrev pub cached_if : Bool → ℕ → ℕ → ℕ → redis.Store → Option VanLocationBroadcast
  cached_if false now school trip c = none
  cached_if true now school trip c = get_trip_location redis (now / 1000) school trip c

module _ {redis : Redis Value} where
  unfoldable pub mark_student_picked :
      Option TenantStore → ℕ → AuthUser → ℕ → ℕ → Action (World redis) (Unit {0})
  mark_student_picked store now user trip student = do
    school ← lift (resolve_school_id user none)
    on_db (
        update trip_students_table (marks store trip student)
          (λ ts. record ts { status = TripStudentStatus.picked; pickup_at = some now }))
    notify (Notice.student_picked school trip student)

  unfoldable pub mark_student_dropped :
      Option TenantStore → ℕ → AuthUser → ℕ → ℕ → Action (World redis) (Unit {0})
  mark_student_dropped store now user trip student = do
    school ← lift (resolve_school_id user none)
    on_db (
        update trip_students_table (marks store trip student)
          (λ ts. record ts { status = TripStudentStatus.dropped; drop_at = some now }))
    notify (Notice.student_dropped school trip student)

module _ (prisma : Prisma) {redis : Redis Value} where
  abbrev on_world : {A : Type 0} → Action (World redis) A → Action (Live redis) A
  on_world m l = let (r, w) = m l.world in (r, record l { world = w })

  abbrev with_cache : {A : Type 0} → Action redis.Store A → Action (Live redis) A
  with_cache m l =
      let (r, c) = m l.world.cache in (r, record l { world = record l.world { cache = c } })

  abbrev publish : VanLocationBroadcast → Action (Live redis) (Unit {0})
  publish p = modify (λ (l : Live redis). record l { published = l.published ++ p ∷ [] })

  abbrev enqueue_log : VanLocationBroadcast → Action (Live redis) (Unit {0})
  enqueue_log p = modify (λ (l : Live redis). record l { enqueued = l.enqueued ++ p ∷ [] })

  unfoldable pub answer_position :
      ℕ
      → Trip
      → TrackingUpdateDto
      → Option VanLocationBroadcast
      → Action (Live redis) VanLocationBroadcast
  answer_position now trip dto (some cached) = pure cached
  answer_position now trip dto none = do
    on_world (on_cache (set_last_known_position redis (now / 1000) trip.id (broadcast_of trip dto)))
    publish (broadcast_of trip dto)
    enqueue_log (broadcast_of trip dto)
    pure (broadcast_of trip dto)

  -- The checks, and the cached position if the trip is throttled. `later` is the second reading of
  -- the clock, in `assertValid`.
  unfoldable pub admit_position :
      Distance
      → ℕ
      → ℕ
      → AuthUser
      → TrackingUpdateDto
      → Action (Live redis) (Trip × Option VanLocationBroadcast)
  admit_position distance now later user dto = do
    trip ← on_world (on_db (assert_active_driver_trip prisma user dto.trip_id))
    with_cache (assert_position redis distance now later dto.trip_id (position_of dto))
    throttled ← with_cache (throttle_check redis now dto.trip_id)
    cached ←
        gets (λ (l : Live redis).
          cached_if redis throttled now trip.school_id dto.trip_id l.world.cache)
    pure (trip, cached)

  unfoldable pub process_driver_location :
      Distance → ℕ → ℕ → AuthUser → TrackingUpdateDto → Action (Live redis) VanLocationBroadcast
  process_driver_location distance now later user dto = do
    (trip, cached) ← admit_position distance now later user dto
    answer_position now trip dto cached

  unfoldable pub trigger_sos : AuthUser → ℕ → Action (World redis) (Unit {0})
  trigger_sos user trip_id = do
    trip ← on_db (assert_active_driver_trip prisma user trip_id)
    on_db (
        modify (λ (d : Database). record d {
          emergency_alerts =
              d.emergency_alerts
              ++ record { school_id = trip.school_id; trip_id = trip_id; triggered_by_id = user.id }
                ∷ [];
        }))
    notify (Notice.sos_triggered trip.school_id trip_id)
