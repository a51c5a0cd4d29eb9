-- ===== src/Notifications/Limits.antt =====
-- What the rate limit of Notifications/Throttle does over a window of time.
use school_van_tracking_saa.Prelude.{ℕ, List, [], ◌∷◌}
use school_van_tracking_saa.Schema.{NotificationType}
use school_van_tracking_saa.Redis.{Redis, Value}
use school_van_tracking_saa.Redis.Counters.{Counters}
use school_van_tracking_saa.Notifications.Throttle.{allow}

module _ {redis : Redis Value} (counters : Counters redis) (school user : ℕ)
    (type : NotificationType) where
  -- Calls of `allow` one after the other, at the times given.
  abbrev pub allow_all : List ℕ → redis.Store → redis.Store
  allow_all [] s = s
  allow_all (now ∷ rest) s = allow_all rest (allow redis counters now school user type s).1
