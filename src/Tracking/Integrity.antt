-- ===== src/Tracking/Integrity.antt =====
-- services/api/src/tracking/validators/gps-integrity.validator.ts and
-- services/gps-integrity.service.ts. `distance` is the great-circle distance of `haversineMeters`,
-- in millimetres: it is computed with floating-point trigonometry, and is a parameter.
use school_van_tracking_saa.Prelude.{
  ℕ, ◌+◌, ◌-◌, ◌*◌, ◌/◌, ◌<◌, ◌≡◌, ◌↔◌, refl, Bool, true, false, Option, none, some, List, [], ◌∷◌,
  ◌++◌, ℤ, Result, ok, err, bad_request, gps_rejected, Action, arith, ltb, not, ◌&&◌, ◌||◌,
  if◌then◌else◌,
}
use school_van_tracking_saa.Redis.{
  Redis, Value, GpsIntegrityContext, sample, as_sample, last_gps_sample,
}

pub record GpsIntegrityInput : Type 0 where
  pub latitude : ℤ
  pub longitude : ℤ
  pub speed : ℕ
  pub accuracy : Option ℕ
  pub timestamp : ℕ
  pub is_mocked : Bool

pub data GpsFlag : Type 0 where
  mock_location impossible_speed low_accuracy_high_speed teleport : GpsFlag
  future_timestamp stale_timestamp : GpsFlag

pub record GpsIntegrityResult : Type 0 where
  pub valid : Bool
  pub flags : List GpsFlag
  pub risk_score : ℕ

abbrev pub Distance : Type 0
Distance = ℤ → ℤ → ℤ → ℤ → ℕ

-- The conditions of the flags.
abbrev pub is_too_fast : GpsIntegrityInput → Bool
is_too_fast input = ltb 150000 input.speed

abbrev exceeds : Option ℕ → ℕ → Bool
exceeds none limit = false
exceeds (some a) limit = ltb limit a

abbrev pub is_blurred : GpsIntegrityInput → Bool
is_blurred input = exceeds input.accuracy 100000 && ltb 60000 input.speed

-- `speedMps > MAX_TELEPORT_MPS`, for an elapsed time above 0 and below 300 seconds
abbrev jumps : Distance → GpsIntegrityInput → ℤ → ℤ → ℕ → Bool
jumps distance input latitude longitude last =
    ltb last input.timestamp
    && ltb input.timestamp (last + 300000)
    && ltb (80 * (input.timestamp - last))
        (distance latitude longitude input.latitude input.longitude)

abbrev from_last : Distance → GpsIntegrityInput → Option ℤ → Option ℤ → Option ℕ → Bool
from_last distance input (some latitude) (some longitude) (some last) =
    jumps distance input latitude longitude last
from_last distance input _ _ _ = false

abbrev pub is_teleport : Distance → GpsIntegrityInput → GpsIntegrityContext → Bool
is_teleport distance input c =
    from_last distance input c.last_latitude c.last_longitude c.last_timestamp

abbrev pub is_future : ℕ → GpsIntegrityInput → Bool
is_future now input = ltb (now + 60000) input.timestamp

abbrev pub is_stale : ℕ → GpsIntegrityInput → Bool
is_stale now input = ltb (input.timestamp + 604800000) now

-- `flags.push(flag); riskScore += risk`
abbrev flag_if : Bool → GpsFlag → ℕ → List GpsFlag × ℕ → List GpsFlag × ℕ
flag_if true flag risk (flags, score) = (flags ++ flag ∷ [], score + risk)
flag_if false flag risk (flags, score) = (flags, score)

unfoldable pub evaluate :
    Distance → ℕ → GpsIntegrityInput → GpsIntegrityContext → GpsIntegrityResult
evaluate distance now input c =
    let (flags, risk) = flag_if (is_stale now input) stale_timestamp 15 (
      flag_if (is_future now input) future_timestamp 20 (
        flag_if (is_teleport distance input c) teleport 60 (
          flag_if (is_blurred input) low_accuracy_high_speed 30 (
            flag_if (is_too_fast input) impossible_speed 50
              (flag_if input.is_mocked mock_location 100 ([], 0)))))) in
    record { valid = ltb risk 80; flags = flags; risk_score = risk }

score-lt :
    (stale future jump blurred fast mocked : Bool)
    → (stale && future) ≡ false
    → ltb
        (flag_if stale stale_timestamp 15 (
          flag_if future future_timestamp 20 (
            flag_if jump teleport 60 (
              flag_if blurred low_accuracy_high_speed 30
                (flag_if fast impossible_speed 50 (flag_if mocked mock_location 100 ([], 0))))))).1
        80
      ≡ not (mocked || (fast && blurred) || (jump && (fast || blurred || future)))
score-lt stale future jump blurred fast mocked h = ground arith

-- A position is accepted exactly when it is not mocked, not both too fast and blurred, and not a
-- jump that is also too fast, blurred or from the future. A jump that is only stale is accepted.
pub evaluate-valid :
    (distance : Distance) (now : ℕ) (input : GpsIntegrityInput) (c : GpsIntegrityContext)
    → (evaluate distance now input c).valid
      ≡ not (
          input.is_mocked
          || (is_too_fast input && is_blurred input)
          || (is_teleport distance input c
              && (is_too_fast input || is_blurred input || is_future now input)))
unfolding evaluate
evaluate-valid distance now input c =
    score-lt (is_stale now input) (is_future now input) (is_teleport distance input c)
      (is_blurred input) (is_too_fast input) input.is_mocked (ground arith)

unfoldable pub assert_valid_position :
    Distance → ℕ → GpsIntegrityInput → GpsIntegrityContext → Result (Unit {0})
assert_valid_position distance now input c =
    if not (evaluate distance now input c).valid then err (bad_request gps_rejected) else ok tt

abbrev pub sample_of : GpsIntegrityInput → GpsIntegrityContext
sample_of input = record {
  last_latitude = some input.latitude;
  last_longitude = some input.longitude;
  last_timestamp = some input.timestamp;
}

abbrev or_empty : Option GpsIntegrityContext → GpsIntegrityContext
or_empty none = record { last_latitude = none; last_longitude = none; last_timestamp = none }
or_empty (some c) = c

module _ (redis : Redis Value) where
  unfoldable pub load_last_sample : ℕ → ℕ → redis.Store → GpsIntegrityContext
  load_last_sample now trip c = or_empty (as_sample (redis.get c now (last_gps_sample trip)))

  unfoldable pub save_last_sample : ℕ → ℕ → GpsIntegrityInput → redis.Store → redis.Store
  save_last_sample now trip input c =
      redis.setex c now (last_gps_sample trip) 3600 (sample (sample_of input))

module _ (redis : Redis Value) (distance : Distance) where
  -- `GpsIntegrityService.validate`
  unfoldable pub validate_position :
      ℕ → ℕ → GpsIntegrityInput → redis.Store → GpsIntegrityResult × redis.Store
  unfolding load_last_sample save_last_sample
  validate_position now trip input c = (
    evaluate distance now input (load_last_sample redis (now / 1000) trip c),
    save_last_sample redis (now / 1000) trip input c,
  )

  -- `GpsIntegrityService.assertValid`: the clock is read again, at `later`, for the exception.
  unfoldable pub assert_position : ℕ → ℕ → ℕ → GpsIntegrityInput → Action redis.Store (Unit {0})
  unfolding load_last_sample save_last_sample assert_valid_position
  assert_position now later trip input c =
      let last = load_last_sample redis (now / 1000) trip c in
      let result = evaluate distance now input last in
      let saved = save_last_sample redis (now / 1000) trip input c in
      if not result.valid
      then (assert_valid_position distance later input last, saved)
      else (ok tt, saved)

  assert_position-store :
      (now later trip : ℕ) (input : GpsIntegrityInput) (c : redis.Store)
      → (assert_position now later trip input c).1
        ≡ redis.setex c (now / 1000) (last_gps_sample trip) 3600 (sample (sample_of input))
  unfolding assert_position save_last_sample load_last_sample assert_valid_position
  assert_position-store now later trip input c = ground arith

  -- A position is refused exactly when it is refused at both readings of the clock; in either case
  -- it is the last sample of the trip for an hour, against which the next one is judged.
  pub assert_position-sample :
      (now later read trip : ℕ) (input : GpsIntegrityInput) (c : redis.Store)
      → read < now / 1000 + 3600
      → let last = load_last_sample redis (now / 1000) trip c in
        (((assert_position now later trip input c).0 ≡ err (bad_request gps_rejected)) ↔ (
          ((evaluate distance now input last).valid ≡ false)
          × ((evaluate distance later input last).valid ≡ false)))
        × (load_last_sample redis read trip (assert_position now later trip input c).1
            ≡ sample_of input)
  unfolding assert_position load_last_sample save_last_sample assert_valid_position
  assert_position-sample now later read trip input c in_time = (
    (λ h. ground arith, λ h. ground arith),
    rw
        (
          assert_position-store now later trip input c,
          redis.get-setex_self c (now / 1000) read 3600 (last_gps_sample trip)
              (sample (sample_of input)) in_time,
        )
        refl,
  )
