-- ===== src/Redis.antt =====
-- The Redis client, which is not code of the repository: a store with expiring keys, as an
-- interface. Keys are the templates of fleet/constants/fleet-redis.keys.ts,
-- tracking/redis/tracking-redis.keys.ts, auth/constants/auth.constants.ts and
-- notifications/constants/notification-redis.keys.ts; a template that is filled with other
-- identifiers is another key. Times are in seconds.
mod Values
pub mod Counters
pub mod Templates
pub mod Windows
pub use Values.*
use school_van_tracking_saa.Prelude.{
  ℕ, ◌+◌, ◌≤◌, ◌<◌, ◌≡◌, ◌≢◌, Bool, false, true, Option, none, some,
}
use school_van_tracking_saa.Schema.{NotificationType}

pub data RedisKey : Type 0 where
  driver_van_assignment van_driver_assignment route_detail : ℕ → ℕ → RedisKey
  active_trip driver_active_trip driver_online trip_location van_location : ℕ → ℕ → RedisKey
  active_trips_set throttle reconnect_snapshot last_gps_sample : ℕ → RedisKey
  geofence_dedup : ℕ → ℕ → ℕ → RedisKey
  login_attempts : ℕ → ℕ → RedisKey
  subscription_status usage_counts : ℕ → RedisKey
  session_cache token_blacklist permissions_cache : ℕ → RedisKey
  rate_limit : ℕ → ℕ → NotificationType → RedisKey
  dedup : ℕ → ℕ → NotificationType → ℕ → RedisKey
  cooldown : ℕ → ℕ → ℕ → NotificationType → RedisKey

-- What the commands of the modelled services promise (redis.io, commands GET, SETEX, DEL, EXPIRE,
-- SADD, SREM and SISMEMBER), over values of a type that the caller chooses.
pub record Redis (V : Type 0) : Type 1 where
  pub Store : Type 0
  pub get : Store → ℕ → RedisKey → Option V
  pub setex : Store → ℕ → RedisKey → ℕ → V → Store
  pub del : Store → RedisKey → Store
  pub sadd : Store → RedisKey → ℕ → Store
  pub srem : Store → RedisKey → ℕ → Store
  pub expire : Store → ℕ → RedisKey → ℕ → Store
  pub is_member : Store → ℕ → RedisKey → ℕ → Bool
  -- KEYS with a pattern, and DEL of the keys found
  pub del_matching : Store → (RedisKey → Bool) → Store
  pub get-setex_self :
      (s : Store) (now later ttl : ℕ) (k : RedisKey) (v : V)
      → later < now + ttl
      → get (setex s now k ttl v) later k ≡ some v
  pub get-setex_late :
      (s : Store) (now later ttl : ℕ) (k : RedisKey) (v : V)
      → now + ttl ≤ later
      → get (setex s now k ttl v) later k ≡ none
  pub get-setex_ne :
      (s : Store) (now later ttl : ℕ) (k j : RedisKey) (v : V)
      → j ≢ k
      → get (setex s now k ttl v) later j ≡ get s later j
  pub get-del_self : (s : Store) (now : ℕ) (k : RedisKey) → get (del s k) now k ≡ none
  pub get-del_ne :
      (s : Store) (now : ℕ) (k j : RedisKey) → j ≢ k → get (del s k) now j ≡ get s now j
  pub get-sadd :
      (s : Store) (now : ℕ) (k j : RedisKey) (m : ℕ) → get (sadd s k m) now j ≡ get s now j
  pub get-srem :
      (s : Store) (now : ℕ) (k j : RedisKey) (m : ℕ) → get (srem s k m) now j ≡ get s now j
  pub get-expire_ne :
      (s : Store) (now later ttl : ℕ) (k j : RedisKey)
      → j ≢ k
      → get (expire s now k ttl) later j ≡ get s later j
  pub is_member-sadd_self :
      (s : Store) (now : ℕ) (k : RedisKey) (m : ℕ) → is_member (sadd s k m) now k m ≡ true
  pub is_member-srem_self :
      (s : Store) (now : ℕ) (k : RedisKey) (m : ℕ) → is_member (srem s k m) now k m ≡ false
  pub is_member-expire :
      (s : Store) (now later ttl : ℕ) (k j : RedisKey) (m : ℕ)
      → later < now + ttl
      → is_member (expire s now k ttl) later j m ≡ is_member s later j m
  pub is_member-del_ne :
      (s : Store) (now : ℕ) (k j : RedisKey) (m : ℕ)
      → j ≢ k
      → is_member (del s k) now j m ≡ is_member s now j m
  pub is_member-setex_ne :
      (s : Store) (now later ttl : ℕ) (k j : RedisKey) (v : V) (m : ℕ)
      → j ≢ k
      → is_member (setex s now k ttl v) later j m ≡ is_member s later j m
  pub get-del_matching :
      (s : Store) (now : ℕ) (p : RedisKey → Bool) (k : RedisKey)
      → p k ≡ true
      → get (del_matching s p) now k ≡ none
  pub get-del_matching_ne :
      (s : Store) (now : ℕ) (p : RedisKey → Bool) (k : RedisKey)
      → p k ≡ false
      → get (del_matching s p) now k ≡ get s now k
  pub is_member-del_matching :
      (s : Store) (now : ℕ) (p : RedisKey → Bool) (k : RedisKey) (m : ℕ)
      → p k ≡ true
      → is_member (del_matching s p) now k m ≡ false
