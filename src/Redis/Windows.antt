-- ===== src/Redis/Windows.antt =====
-- The pattern of services/api/src/auth/services/login-protection.service.ts and
-- services/api/src/notifications/services/notification-rate-limit.service.ts: INCR, and EXPIRE
-- when the key was missing.
use school_van_tracking_saa.Prelude.{
  ℕ, suc, ◌+◌, ◌≤◌, ◌<◌, ◌≡◌, none, some, List, [], ◌∷◌, refl, ◌∙◌, All, ◌==◌, if◌then◌else◌, arith,
  length, subst,
}
use school_van_tracking_saa.Redis.{Redis, RedisKey, Value, number}
use school_van_tracking_saa.Redis.Counters.{Counters}

module _ {redis : Redis Value} (counters : Counters redis) (window : ℕ) (key : RedisKey) where
  -- The count, and the store afterwards.
  unfoldable pub bump : ℕ → redis.Store → ℕ × redis.Store
  bump now s =
      let (n, s') = counters.incr s now key in
      if n == 1 then (n, redis.expire s' now key window) else (n, s')

  -- The key holds a number until an instant, and nothing from then on.
  abbrev pub Counted : redis.Store → ℕ → ℕ → Type 0
  Counted s n expiry =
      ((later : ℕ) → later < expiry → redis.get s later key ≡ some (number n))
      × ((later : ℕ) → expiry ≤ later → redis.get s later key ≡ none)

  -- The first bump makes the key and sets its expiry.
  bump_missing :
      (now : ℕ) (s : redis.Store)
      → redis.get s now key ≡ none
      → bump now s ≡ (1, redis.expire (counters.incr s now key).1 now key window)
  unfolding bump
  bump_missing now s missing = ground (arith, (counters.incr-missing s now now key missing).0)

  -- Another one counts, and leaves the expiry as it is.
  bump_found :
      (n now : ℕ) (s : redis.Store)
      → redis.get s now key ≡ some (number (suc n))
      → bump now s ≡ (suc (suc n), (counters.incr s now key).1)
  unfolding bump
  bump_found n now s found = ground (arith, counters.incr-found s now key (suc n) found)

  pub bump-first :
      (now : ℕ) (s : redis.Store)
      → redis.get s now key ≡ none
      → ((bump now s).0 ≡ 1) × Counted (bump now s).1 1 (now + window)
  bump-first now s missing =
      let made = (counters.incr s now key).1 in
      rw (bump_missing now s missing) (
        refl,
        (
          λ later early.
              counters.get-expire_before made now later window key early
              ∙ (counters.incr-missing s now later key missing).1,
          λ later late. counters.get-expire_after made now later window key late,
        ),
      )

  pub bump-next :
      (n expiry now : ℕ) (s : redis.Store)
      → now < expiry
      → Counted s (suc n) expiry
      → ((bump now s).0 ≡ suc (suc n)) × Counted (bump now s).1 (suc (suc n)) expiry
  bump-next n expiry now s early (live, dead) =
      let found = live now early in
      rw (bump_found n now s found) (
        refl,
        (
          λ later h. counters.get-incr_live s now later key (suc n) found (live later h),
          λ later h. counters.get-incr_expired s now later key (suc n) found (dead later h),
        ),
      )

  abbrev pub bump_all : List ℕ → redis.Store → redis.Store
  bump_all [] s = s
  bump_all (now ∷ rest) s = bump_all rest (bump now s).1

  bump_all-Counted :
      (n expiry : ℕ) (times : List ℕ) (s : redis.Store)
      → All (λ now. now < expiry) times
      → Counted s (suc n) expiry
      → Counted (bump_all times s) (suc n + length times) expiry
  bump_all-Counted n expiry [] s early c = subst (λ m. Counted s m expiry) (omega arith) c
  bump_all-Counted n expiry (now ∷ rest) s (early, others) c =
      let s' = (bump now s).1 in
      let last =
        bump_all-Counted (suc n) expiry rest s' others (bump-next n expiry now s early c).1 in
      subst (λ m. Counted (bump_all rest s') m expiry) (omega arith) last

  -- All bumps of a window: the first one at its start, and the others before its end.
  pub bump_all-window :
      (start : ℕ) (times : List ℕ) (s : redis.Store)
      → redis.get s start key ≡ none
      → All (λ now. now < start + window) times
      → Counted (bump_all (start ∷ times) s) (suc (length times)) (start + window)
  bump_all-window start times s missing early =
      let s' = (bump start s).1 in
      subst (λ m. Counted (bump_all times s') m (start + window)) (omega arith)
        (bump_all-Counted 0 (start + window) times s' early (bump-first start s missing).1)
