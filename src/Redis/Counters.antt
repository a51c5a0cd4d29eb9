-- ===== src/Redis/Counters.antt =====
-- Counters of the Redis client (redis.io, commands INCR and EXPIRE), for the services that count
-- attempts. Times are in seconds.
use school_van_tracking_saa.Prelude.{ℕ, suc, ◌+◌, ◌≤◌, ◌<◌, ◌≡◌, ◌≢◌, none, some}
use school_van_tracking_saa.Redis.{Redis, RedisKey, Value, number}

-- INCR makes a key that is missing, without an expiry, and keeps the expiry of one that is there.
pub record Counters (redis : Redis Value) : Type 0 where
  pub incr : redis.Store → ℕ → RedisKey → ℕ × redis.Store
  pub incr-missing :
      (s : redis.Store) (now later : ℕ) (k : RedisKey)
      → redis.get s now k ≡ none
      → ((incr s now k).0 ≡ 1) × (redis.get (incr s now k).1 later k ≡ some (number 1))
  pub incr-found :
      (s : redis.Store) (now : ℕ) (k : RedisKey) (n : ℕ)
      → redis.get s now k ≡ some (number n)
      → (incr s now k).0 ≡ suc n
  pub get-incr_live :
      (s : redis.Store) (now later : ℕ) (k : RedisKey) (n : ℕ)
      → redis.get s now k ≡ some (number n)
      → redis.get s later k ≡ some (number n)
      → redis.get (incr s now k).1 later k ≡ some (number (suc n))
  pub get-incr_expired :
      (s : redis.Store) (now later : ℕ) (k : RedisKey) (n : ℕ)
      → redis.get s now k ≡ some (number n)
      → redis.get s later k ≡ none
      → redis.get (incr s now k).1 later k ≡ none
  pub get-expire_before :
      (s : redis.Store) (now later ttl : ℕ) (k : RedisKey)
      → later < now + ttl
      → redis.get (redis.expire s now k ttl) later k ≡ redis.get s later k
  pub get-expire_after :
      (s : redis.Store) (now later ttl : ℕ) (k : RedisKey)
      → now + ttl ≤ later
      → redis.get (redis.expire s now k ttl) later k ≡ none
  pub get-incr_ne :
      (s : redis.Store) (now later : ℕ) (k j : RedisKey)
      → j ≢ k
      → redis.get (incr s now k).1 later j ≡ redis.get s later j
