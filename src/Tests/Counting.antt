-- ===== src/Tests/Counting.antt =====
-- INCR and EXPIRE on the Redis client over functions, and failed logins that are counted by them.
use school_van_tracking_saa.Prelude.{
  ℕ, suc, ◌+◌, ◌<◌, ◌≤◌, ◌≡◌, ◌↔◌, refl, ◌∙◌, Option, none, some, List, [], ◌∷◌, arith, ltb, ◌==◌,
  if◌then◌else◌, err, too_many_requests, too_many_attempts,
}
use school_van_tracking_saa.Redis.{RedisKey, Value, number}
use school_van_tracking_saa.Redis.Counters.{Counters}
use school_van_tracking_saa.Auth.LoginProtection.{Limits, assert_not_rate_limited}
use school_van_tracking_saa.Auth.Lockout.{fail_all, fail_all-locked_iff}
use school_van_tracking_saa.Tests.Clients.{
  KeySpace, key_space, empty_space, pick, pick-yes, pick-no, RedisKey-discrete,
}

abbrev as_number : Option Value → ℕ
as_number (some (number n)) = n
as_number _ = 0

-- A value with another number, where there is one.
abbrev renumber : ℕ → Option Value → Option Value
renumber n none = none
renumber n (some _) = some (number n)

abbrev counted : ℕ → Option Value → Option Value → Option Value
counted n none v = some (number n)
counted n (some _) v = renumber n v

abbrev incr_at : KeySpace → ℕ → RedisKey → ℕ × KeySpace
incr_at s now k =
    let n = suc (as_number (s.value_at k now)) in
    (
      n,
      record s {
        value_at = λ j t.
            pick (counted n (s.value_at k now) (s.value_at j t)) (s.value_at j t)
              (RedisKey-discrete j k);
      },
    )

pub expire-before :
    (t expiry : ℕ) (v : Option Value) → t < expiry → (if ltb t expiry then v else none) ≡ v
expire-before t expiry v h = ground arith

pub expire-after :
    (t expiry : ℕ) (v : Option Value) → expiry ≤ t → (if ltb t expiry then v else none) ≡ none
expire-after t expiry v h = ground arith

abbrev pub counters : Counters key_space
counters = record {
  incr = incr_at;
  incr-missing = λ s now later k h. rw h (refl, pick-yes _ _ (RedisKey-discrete k k) refl);
  incr-found = λ s now k n h. rw h refl;
  get-incr_live = λ s now later k n h l. pick-yes _ _ (RedisKey-discrete k k) refl ∙ rw (h, l) refl;
  get-incr_expired =
      λ s now later k n h l. pick-yes _ _ (RedisKey-discrete k k) refl ∙ rw (h, l) refl;
  get-incr_ne = λ s now later k j ne. pick-no _ _ (RedisKey-discrete j k) ne;
  get-expire_before = λ s now later ttl k h.
      pick-yes _ _ (RedisKey-discrete k k) refl ∙ expire-before later (now + ttl) _ h;
  get-expire_after = λ s now later ttl k h.
      pick-yes _ _ (RedisKey-discrete k k) refl ∙ expire-after later (now + ttl) _ h;
}

abbrev pub three_in_15_minutes : Limits
three_in_15_minutes = record { max_attempts = 3; lock_window_seconds = 900 }

-- Addresses come in pairs, in capital and in small letters.
abbrev small : ℕ → ℕ
small n = if n == 8 then 9 else n

abbrev more_failures : List (ℕ × ℕ)
more_failures = (130, 9) ∷ (200, 8) ∷ []

fail_all-locked_iff_example :
    let after =
      fail_all counters small three_in_15_minutes 9 4 ((100, 8) ∷ more_failures) empty_space in
    ((assert_not_rate_limited small key_space three_in_15_minutes 300 9 4 after).0
      ≡ err (too_many_requests too_many_attempts))
    ↔ ((300 < 1000) × (3 ≤ 3))
fail_all-locked_iff_example =
    fail_all-locked_iff counters small three_in_15_minutes 9 4 100 8 300 more_failures empty_space
      refl refl ((omega arith, refl), ((omega arith, refl), tt))
