-- ===== src/Notifications/Throttle.antt =====
-- services/api/src/notifications/services/notification-rate-limit.service.ts and
-- services/api/src/notifications/utils/dedup.util.ts.
use school_van_tracking_saa.Prelude.{
  ℕ, Bool, true, false, none, some, ok, Action, pure, modify, when, ◌>>=◌, ◌>>◌, ◌==◌, leb,
}
use school_van_tracking_saa.Schema.{
  NotificationType, van_within_1km, van_within_500m, sos_emergency, school_announcement,
}
use school_van_tracking_saa.Redis.{Redis, RedisKey, Value, flag, rate_limit, dedup}
use school_van_tracking_saa.Redis.Counters.{Counters}

pub record Rule : Type 0 where
  pub max : ℕ
  pub window_sec : ℕ

-- `TYPE_LIMITS[type] ?? { max: 60, windowSec: 3600 }`
abbrev pub rule_of : NotificationType → Rule
rule_of school_announcement = record { max = 5; window_sec = 3600 }
rule_of sos_emergency = record { max = 10; window_sec = 300 }
rule_of van_within_1km = record { max = 20; window_sec = 3600 }
rule_of van_within_500m = record { max = 20; window_sec = 3600 }
rule_of _ = record { max = 60; window_sec = 3600 }

module _ (redis : Redis Value) where
  abbrev pub incr : Counters redis → ℕ → RedisKey → Action redis.Store ℕ
  incr counters now key s = let (n, s') = counters.incr s now key in (ok n, s')

  -- `NotificationRateLimitService.allow`
  unfoldable pub allow : Counters redis → ℕ → ℕ → ℕ → NotificationType → Action redis.Store Bool
  allow counters now school user type = do
    count ← incr counters now (rate_limit school user type)
    when (count == 1)
        (modify (λ s. redis.expire s now (rate_limit school user type) (rule_of type).window_sec))
    pure (leb count (rule_of type).max)

  -- SET with NX and EX: sets a key that is missing, and answers OK if it did.
  abbrev pub set_nx : ℕ → RedisKey → ℕ → Value → Action redis.Store Bool
  set_nx now key ttl v s = elim (redis.get s now key) [
    | none ↦ (ok true, redis.setex s now key ttl v)
    | some _ ↦ (ok false, s)
  ]

  -- `NotificationDedupService.shouldSend`
  unfoldable pub should_send : ℕ → ℕ → ℕ → NotificationType → ℕ → ℕ → Action redis.Store Bool
  should_send now school user type scope cooldown_seconds =
      set_nx now (dedup school user type scope) cooldown_seconds flag
