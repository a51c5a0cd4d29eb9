-- ===== src/Auth/Lockout.antt =====
-- What the count of failed logins in Auth/LoginProtection does over a window of time.
use school_van_tracking_saa.Prelude.{
  ℕ, suc, ◌+◌, ◌≤◌, ◌<◌, ◌≡◌, ◌↔◌, ap, subst, ◌∙◌, none, err, List, [], ◌∷◌, All, ltb, inl, inr,
  arith, Bool-cases, too_many_requests, too_many_attempts, length, ◌==◌,
}
use school_van_tracking_saa.Redis.{Redis, Value, login_attempts}
use school_van_tracking_saa.Redis.Counters.{Counters}
use school_van_tracking_saa.Redis.Windows.{bump, bump-first, bump-next, Counted}
use school_van_tracking_saa.Auth.LoginProtection.{
  Limits, build_key, assert_not_rate_limited, record_failed_attempt,
}

module _ {redis : Redis Value} (counters : Counters redis) (to_lower_case : ℕ → ℕ) (limits : Limits)
    (email ip : ℕ) where
  -- A failed login: its time, and the address as it was typed.
  abbrev pub fail : ℕ × ℕ → redis.Store → redis.Store
  fail (now, typed) s = (record_failed_attempt to_lower_case redis counters limits now typed ip s).1

  -- Failed logins one after the other.
  abbrev pub fail_all : List (ℕ × ℕ) → redis.Store → redis.Store
  fail_all [] s = s
  fail_all (a ∷ rest) s = fail_all rest (fail a s)

  -- The same address, before an instant.
  abbrev pub Before : ℕ → ℕ × ℕ → Type 0
  Before expiry (now, typed) = (now < expiry) × (to_lower_case typed ≡ to_lower_case email)

  fail_own :
      (now typed : ℕ) (s : redis.Store)
      → fail (now, typed) s
        ≡ (bump counters limits.lock_window_seconds (build_key to_lower_case typed ip) now s).1
  unfolding record_failed_attempt bump
  fail_own now typed s =
      let key = build_key to_lower_case typed ip in
      elim (Bool-cases ((counters.incr s now key).0 == 1)) [
        | inl y ↦ ground arith
        | inr n ↦ ground arith
      ]

  -- A failure under another spelling of the address counts on the same key.
  fail-bump :
      (now typed : ℕ) (s : redis.Store)
      → to_lower_case typed ≡ to_lower_case email
      → fail (now, typed) s
        ≡ (bump counters limits.lock_window_seconds (build_key to_lower_case email ip) now s).1
  unfolding build_key
  fail-bump now typed s same =
      fail_own now typed s
      ∙ ap (λ e. (bump counters limits.lock_window_seconds (login_attempts e ip) now s).1) same

  abbrev Failures : redis.Store → ℕ → ℕ → Type 0
  Failures s n expiry =
      Counted counters limits.lock_window_seconds (build_key to_lower_case email ip) s n expiry

  fail_all-Failures :
      (n expiry : ℕ) (attempts : List (ℕ × ℕ)) (s : redis.Store)
      → All (Before expiry) attempts
      → Failures s (suc n) expiry
      → Failures (fail_all attempts s) (suc n + length attempts) expiry
  fail_all-Failures n expiry [] s early c = subst (λ m. Failures s m expiry) (omega arith) c
  fail_all-Failures n expiry ((now, typed) ∷ rest) s ((early, same), others) c =
      let s' = fail (now, typed) s in
      let key = build_key to_lower_case email ip in
      let next : Failures s' (suc (suc n)) expiry =
        rw (fail-bump now typed s same)
          (bump-next counters limits.lock_window_seconds key n expiry now s early c).1 in
      subst (λ m. Failures (fail_all rest s') m expiry) (omega arith)
        (fail_all-Failures (suc n) expiry rest s' others next)

  -- After a first failed login, and any number of further ones in the window that starts with it,
  -- under whichever spelling of the address in capital and small letters, the rate limit check
  -- of a login refuses exactly when the window is not over and there were as many failures as are
  -- allowed. (It is the first check of a login; the lock of the account itself is another.)
  pub fail_all-locked_iff :
      (start typed later : ℕ) (attempts : List (ℕ × ℕ)) (s : redis.Store)
      → to_lower_case typed ≡ to_lower_case email
      → redis.get s start (build_key to_lower_case email ip) ≡ none
      → All (Before (start + limits.lock_window_seconds)) attempts
      → let after = fail_all ((start, typed) ∷ attempts) s in
        ((assert_not_rate_limited to_lower_case redis limits later email ip after).0
          ≡ err (too_many_requests too_many_attempts))
        ↔ ((later < start + limits.lock_window_seconds)
            × (limits.max_attempts ≤ suc (length attempts)))
  unfolding assert_not_rate_limited
  fail_all-locked_iff start typed later attempts s same missing early =
      let expiry = start + limits.lock_window_seconds in
      let key = build_key to_lower_case email ip in
      let first : Failures (fail (start, typed) s) 1 expiry =
        rw (fail-bump start typed s same)
          (bump-first counters limits.lock_window_seconds key start s missing).1 in
      let (live, dead) = fail_all-Failures 0 expiry attempts (fail (start, typed) s) early first in
      elim (Bool-cases (ltb later expiry)) [
        | inl y ↦
            let h : later < expiry = ground arith in
            rw (live later h) (λ e. (h, ground arith), λ (_, e). ground arith)
        | inr n ↦
            let h : expiry ≤ later = ground arith in
            rw (dead later h) (λ e. absurd (ground arith), λ (h', _). absurd (omega arith))
      ]
