-- ===== src/Tracking/Cache.antt =====
-- services/api/src/tracking/redis/tracking-cache.service.ts
use school_van_tracking_saa.Prelude.{ℕ, ◌+◌, ◌/◌, Bool, true, false, Option, none, some}
use school_van_tracking_saa.Redis.{
  Redis, RedisKey, Value, geofence_dedup, VanLocationBroadcast, flag, ident, location, as_location,
  as_ident, active_trip, driver_active_trip, active_trips_set, driver_online, trip_location,
  van_location, throttle, reconnect_snapshot,
}

abbrev location_ttl : ℕ
location_ttl = 120

abbrev active_trip_ttl : ℕ
active_trip_ttl = 86400

module _ (redis : Redis Value) where
  unfoldable pub set_latest_location : ℕ → VanLocationBroadcast → redis.Store → redis.Store
  set_latest_location now p c =
      redis.expire
        (redis.sadd
          (redis.setex
            (redis.setex c now (trip_location p.school_id p.trip_id) location_ttl (location p)) now
            (van_location p.school_id p.van_id) location_ttl (location p))
          (active_trips_set p.school_id) p.trip_id)
        now (active_trips_set p.school_id) active_trip_ttl

  unfoldable pub get_trip_location : ℕ → ℕ → ℕ → redis.Store → Option VanLocationBroadcast
  get_trip_location now school trip c = as_location (redis.get c now (trip_location school trip))

  unfoldable pub set_driver_online : ℕ → ℕ → ℕ → Bool → redis.Store → redis.Store
  set_driver_online now school driver true c =
      redis.setex c now (driver_online school driver) 90 flag
  set_driver_online now school driver false c = redis.del c (driver_online school driver)

  abbrev throttled : Option Value → ℕ → ℕ → ℕ → redis.Store → Bool × redis.Store
  throttled (some v) now key ttl c = (true, c)
  throttled none now key ttl c = (false, redis.setex c now (throttle key) ttl flag)

  -- `Math.ceil(minIntervalMs / 1000)` seconds
  unfoldable pub should_throttle : ℕ → ℕ → ℕ → redis.Store → Bool × redis.Store
  should_throttle now key min_interval_ms c =
      throttled (redis.get c now (throttle key)) now key ((min_interval_ms + 999) / 1000) c

  abbrev mark : Option Value → ℕ → RedisKey → redis.Store → Bool × redis.Store
  mark (some v) now key c = (false, c)
  mark none now key c = (true, redis.setex c now key 86400 flag)

  -- `SET key '1' EX 86400 NX`, which sets a key that is not there
  unfoldable pub mark_geofence_sent : ℕ → ℕ → ℕ → ℕ → redis.Store → Bool × redis.Store
  mark_geofence_sent now trip student type c =
      mark (redis.get c now (geofence_dedup trip student type)) now
        (geofence_dedup trip student type) c

  unfoldable pub set_active_trip : ℕ → ℕ → ℕ → ℕ → redis.Store → redis.Store
  set_active_trip now school trip driver c =
      redis.expire
        (redis.setex
          (redis.sadd (redis.setex c now (active_trip school trip) active_trip_ttl (ident driver))
            (active_trips_set school) trip)
          now (driver_active_trip school driver) active_trip_ttl (ident trip))
        now (active_trips_set school) active_trip_ttl

  abbrev del_driver : ℕ → Option ℕ → redis.Store → redis.Store
  del_driver school none c = c
  del_driver school (some driver) c = redis.del c (driver_active_trip school driver)

  unfoldable pub clear_active_trip : ℕ → ℕ → Option ℕ → redis.Store → redis.Store
  clear_active_trip school trip driver c =
      del_driver school driver
        (redis.srem (redis.del c (active_trip school trip)) (active_trips_set school) trip)

  unfoldable pub set_last_known_position : ℕ → ℕ → VanLocationBroadcast → redis.Store → redis.Store
  unfolding set_latest_location
  set_last_known_position now trip p c =
      set_latest_location now p (redis.setex c now (reconnect_snapshot trip) 300 (location p))

  unfoldable pub get_reconnect_snapshot : ℕ → ℕ → redis.Store → Option VanLocationBroadcast
  get_reconnect_snapshot now trip c = as_location (redis.get c now (reconnect_snapshot trip))

  unfoldable pub get_driver_active_trip_id : ℕ → ℕ → ℕ → redis.Store → Option ℕ
  get_driver_active_trip_id now school driver c =
      as_ident (redis.get c now (driver_active_trip school driver))
