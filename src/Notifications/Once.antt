-- ===== src/Notifications/Once.antt =====
-- How often the dispatcher of Notifications/Dispatcher queues a notification.
use school_van_tracking_saa.Prelude.{
  ℕ, ◌≡◌, ◌≢◌, ◌∙◌, refl, Bool, some, ok, inl, inr, Prisma, leb, Bool-cases, ◌==◌,
}
use school_van_tracking_saa.Schema.{NotificationType}
use school_van_tracking_saa.Redis.{Redis, RedisKey, Value, rate_limit, dedup}
use school_van_tracking_saa.Redis.Counters.{Counters}
use school_van_tracking_saa.Notifications.Throttle.{rule_of, allow}
use school_van_tracking_saa.Notifications.Dispatcher.{DispatchNotificationInput}

module _ {redis : Redis Value} (prisma : Prisma) (counters : Counters redis) where
  -- The rate limit leaves every other key as it is.
  pub allow-get_ne :
      (now later school user : ℕ) (type : NotificationType) (s : redis.Store) (key : RedisKey)
      → key ≢ rate_limit school user type
      → redis.get (allow redis counters now school user type s).1 later key ≡ redis.get s later key
  unfolding allow
  allow-get_ne now later school user type s key ne =
      let k = rate_limit school user type in
      let made = counters.incr s now k in
      elim (Bool-cases (made.0 == 1)) [
        | inl y ↦ rw y (
            redis.get-expire_ne made.1 now later (rule_of type).window_sec k key ne
            ∙ counters.get-incr_ne s now later k key ne)
        | inr n ↦ rw n (counters.get-incr_ne s now later k key ne)
      ]

  pub allow-ok :
      (now school user : ℕ) (type : NotificationType) (s : redis.Store)
      → (b : Bool) × ((allow redis counters now school user type s).0 ≡ ok b)
  unfolding allow
  allow-ok now school user type s =
      let n = (counters.incr s now (rate_limit school user type)).0 in
      (
        leb n (rule_of type).max,
        elim (Bool-cases (n == 1)) [ inl y ↦ rw y refl | inr o ↦ rw o refl ],
      )

  module _ (input : DispatchNotificationInput) (scope : ℕ)
      (has : input.dedup_scope ≡ some scope) where
    abbrev scope_key : RedisKey
    scope_key = dedup input.school_id input.user_id input.type scope
