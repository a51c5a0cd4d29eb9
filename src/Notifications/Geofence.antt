-- ===== src/Notifications/Geofence.antt =====
-- services/api/src/notifications/services/geofence-alert.engine.ts, with `setGeofenceCooldown` of
-- services/notification-redis-cache.service.ts. The students that wait for the van with their
-- distances, in millimetres, come from a spatial query and are a parameter. `new_id` gives the
-- identifier of a notification to the student that it is about, and `scope` the text
-- `<trip>:<student>:<type>`.
use school_van_tracking_saa.Prelude.{
  ℕ, Bool, Option, none, some, List, [], ◌∷◌, Prisma, Action, pure, when, ◌>>=◌, ◌>>◌, leb,
  if◌then◌else◌,
}
use school_van_tracking_saa.Schema.{NotificationType, van_within_500m, van_within_1km}
use school_van_tracking_saa.Redis.{Redis, Value, flag, cooldown}
use school_van_tracking_saa.Redis.Counters.{Counters}
use school_van_tracking_saa.Notifications.Throttle.{set_nx}
use school_van_tracking_saa.Notifications.Dispatcher.{
  DispatchNotificationInput, NotifyWorld, on_store, dispatch,
}

pub record GeofenceJob : Type 0 where
  pub school_id : ℕ
  pub trip_id : ℕ
  pub radius_1km : ℕ
  pub radius_500m : ℕ

pub record ProximityResult : Type 0 where
  pub student_id : ℕ
  pub parent_id : ℕ
  pub parent_user_id : ℕ
  pub distance : ℕ

pub record Alert : Type 0 where
  pub type : NotificationType
  pub cooldown_seconds : ℕ

-- Which alert a distance asks for, with its cooldown.
abbrev pub alert_of : GeofenceJob → ℕ → Option Alert
alert_of job distance =
    if leb distance job.radius_500m
    then some (record { type = van_within_500m; cooldown_seconds = 1800 })
    else if leb distance job.radius_1km
    then some (record { type = van_within_1km; cooldown_seconds = 3600 })
    else none

abbrev pub input_of :
    (ℕ → ℕ → NotificationType → ℕ)
    → GeofenceJob
    → ProximityResult
    → Alert
    → DispatchNotificationInput
input_of scope job row alert = record {
  school_id = job.school_id;
  user_id = row.parent_user_id;
  type = alert.type;
  parent_id = some row.parent_id;
  trip_id = some job.trip_id;
  dedup_scope = some (scope job.trip_id row.student_id alert.type);
  dedup_cooldown_seconds = some alert.cooldown_seconds;
}

module _ (redis : Redis Value) where
  unfoldable pub set_geofence_cooldown :
      ℕ → ℕ → ℕ → ℕ → NotificationType → ℕ → Action redis.Store Bool
  set_geofence_cooldown now school trip student type ttl_seconds =
      set_nx redis now (cooldown school trip student type) ttl_seconds flag

module _ (prisma : Prisma) {redis : Redis Value} (counters : Counters redis)
    (scope : ℕ → ℕ → NotificationType → ℕ) (new_id : ℕ → ℕ) (now : ℕ) where
  unfoldable pub dispatch_proximity :
      GeofenceJob → ProximityResult → Option Alert → Action (NotifyWorld redis) (Unit {0})
  dispatch_proximity job row none = pure tt
  dispatch_proximity job row (some alert) = do
    cooldown_ok ← on_store (
        set_geofence_cooldown redis now job.school_id job.trip_id row.student_id alert.type
          alert.cooldown_seconds)
    when cooldown_ok (
        dispatch prisma counters now (new_id row.student_id) (input_of scope job row alert)
        >> pure tt)

  unfoldable pub evaluate :
      GeofenceJob → List ProximityResult → Action (NotifyWorld redis) (Unit {0})
  evaluate job [] = pure tt
  evaluate job (row ∷ rest) =
      dispatch_proximity job row (alert_of job row.distance) >> evaluate job rest
