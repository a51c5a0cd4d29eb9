-- ===== src/Auth/LoginProtection.antt =====
-- services/api/src/auth/services/login-protection.service.ts: failed logins, counted for each
-- e-mail address, in small letters, and IP address.
use school_van_tracking_saa.Prelude.{
  ℕ, Bool, Option, some, ok, Action, pure, throw_if, modify, gets, ◌>>=◌, ◌>>◌, ◌==◌, leb, when,
  false, too_many_requests, too_many_attempts,
}
use school_van_tracking_saa.Redis.{Redis, RedisKey, Value, number, login_attempts}
use school_van_tracking_saa.Redis.Counters.{Counters}

-- `auth.maxLoginAttempts` and `auth.lockWindowSeconds` of the configuration.
pub record Limits : Type 0 where
  pub max_attempts : ℕ
  pub lock_window_seconds : ℕ

-- `attempts && Number(attempts) >= this.maxAttempts`
abbrev pub is_locked : Limits → Option Value → Bool
is_locked limits (some (number n)) = leb limits.max_attempts n
is_locked limits _ = false

-- `toLowerCase` is a function of the identifiers that stand for addresses.
module _ (to_lower_case : ℕ → ℕ) where
  unfoldable pub build_key : ℕ → ℕ → RedisKey
  build_key email ip = login_attempts (to_lower_case email) ip

  module _ (redis : Redis Value) where
    unfoldable pub assert_not_rate_limited : Limits → ℕ → ℕ → ℕ → Action redis.Store (Unit {0})
    assert_not_rate_limited limits now email ip = do
      attempts ← gets (λ s. redis.get s now (build_key email ip))
      throw_if (is_locked limits attempts) (too_many_requests too_many_attempts)

    abbrev increment : Counters redis → ℕ → RedisKey → Action redis.Store ℕ
    increment counters now key s = let (n, s') = counters.incr s now key in (ok n, s')

    unfoldable pub record_failed_attempt :
        Counters redis → Limits → ℕ → ℕ → ℕ → Action redis.Store ℕ
    record_failed_attempt counters limits now email ip = do
      attempts ← increment counters now (build_key email ip)
      when (attempts == 1)
          (modify (λ s. redis.expire s now (build_key email ip) limits.lock_window_seconds))
      pure attempts

    unfoldable pub clear_attempts : ℕ → ℕ → Action redis.Store (Unit {0})
    clear_attempts email ip = modify (λ s. redis.del s (build_key email ip))
