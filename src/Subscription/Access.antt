-- ===== src/Subscription/Access.antt =====
-- Trials, limits and the cache in services/api/src/schools/services/subscription.service.ts.
use school_van_tracking_saa.Prelude.{
  ==_refl, ap, Bool-cases, ◌⊎◌, inl, inr, ℕ, ◌+◌, ◌*◌, ◌/◌, ◌<◌, ◌≡◌, ◌≢◌, refl, ◌∙◌, true, false,
  Option, none, some, Prisma, ok, Result-cases, Option-cases, arith, ltb, trial_ended, ◌==◌, ◌&&◌,
  not,
}
use school_van_tracking_saa.Redis.{
  driver_van_assignment, active_trips_set, trip_location, as_location, as_ident, RedisKey, Redis,
  Value, SubscriptionStatusView, Usage, status_view, as_status_view, subscription_status,
}
use school_van_tracking_saa.Redis.Templates.{OfSchool, matches-OfSchool, OfSchool-matches}
use school_van_tracking_saa.Fleet.Cache.{get_driver_van_assignment}
use school_van_tracking_saa.Tracking.Cache.{get_trip_location}
use school_van_tracking_saa.Subscription.Store.{School, SchoolSubscription, PlanCatalog, Platform}
use school_van_tracking_saa.Subscription.Status.{is_school_inactive, status_of}
use school_van_tracking_saa.Subscription.Service.{
  Resource, vans, drivers, students, AssignSubscriptionDto, is_key_of_school, trial_row, day_ms,
  check_limit, get_resource_counts, get_subscription_status, assert_active_subscription,
  assert_within_limits, assign_subscription,
}

-- With days of grace, a trial gives an active school access until the grace of the subscription is
-- over, not only until the trial ends; its end is never the reason of a refusal.
pub trial_row-access :
    (grace_days trial_days now later plan_id : ℕ) (school : School) (plan : PlanCatalog)
    (usage : Usage)
    → is_school_inactive school ≡ false
    → 0 < grace_days
    → let view =
        status_of later school (trial_row grace_days trial_days now school.id plan_id) plan usage in
      (view.can_access_platform ≡ ltb later (now + trial_days * day_ms + grace_days * day_ms))
      × (view.message ≢ some trial_ended)
unfolding status_of
trial_row-access grace_days trial_days now later plan_id school plan usage open_school h =
    (ground arith, λ e. ground arith)

-- The bound of the plan for a resource.
abbrev pub Below : Resource → SubscriptionStatusView → Type 0
Below vans v = v.usage.vans < v.features.max_vans
Below drivers v = v.usage.drivers < v.features.max_drivers
Below students v = v.usage.students < v.features.max_students

module _ (prisma : Prisma) {redis : Redis Value} (now school_id : ℕ) (w : Platform redis) where
  abbrev key : RedisKey
  key = subscription_status school_id

  abbrev cached_in : Platform redis → Option SubscriptionStatusView
  cached_in x = as_status_view (redis.get x.cache (now / 1000) key)

  status-hit :
      (x : Platform redis) (v : SubscriptionStatusView)
      → cached_in x ≡ some v
      → get_subscription_status prisma now school_id x ≡ (ok v, x)
  unfolding get_subscription_status
  status-hit x v e = rw e refl

  -- A status that is worked out is put into the cache.
  status-miss :
      (v : SubscriptionStatusView)
      → cached_in w ≡ none
      → (get_subscription_status prisma now school_id w).0 ≡ ok v
      → (c : redis.Store) × ((get_subscription_status prisma now school_id w).1.cache
          ≡ redis.setex c (now / 1000) key 300 (status_view v))
  unfolding get_subscription_status
  status-miss v e h =
      elim (Option-cases
        (prisma.find_first (λ (s : School). (s.id == school_id) && not s.is_deleted) w.schools)) [
          | inl n ↦ absurd (ground arith)
          | inr (school, s) ↦
              elim (Option-cases (
                prisma.find_first (λ (s : SchoolSubscription). s.school_id == school_id)
                  w.subscriptions)) [
                    | inl n ↦ absurd (ground arith)
                    | inr (sub, s2) ↦
                        elim (Option-cases (
                          prisma.find_first (λ (p : PlanCatalog). p.id == sub.plan_catalog_id)
                            w.plans)) [
                              | inl n ↦ absurd (ground arith)
                              | inr (plan, s3) ↦
                                  elim (Result-cases (get_resource_counts now school_id w).0) [
                                    | inr (_, r) ↦ absurd (ground arith)
                                    | inl (usage, r) ↦ (
                                      (get_resource_counts now school_id w).1.cache,
                                      ground arith,
                                    )
                                  ]
                            ]
                  ]
        ]

  status-cached :
      (v : SubscriptionStatusView)
      → (get_subscription_status prisma now school_id w).0 ≡ ok v
      → cached_in (get_subscription_status prisma now school_id w).1 ≡ some v
  status-cached v h = elim (Option-cases (cached_in w)) [
    | inr (c, e) ↦
        let hit = status-hit w c e in let same : c ≡ v = ground arith in rw hit (e ∙ ap some same)
    | inl e ↦
        let (c, stored) = status-miss v e h in
        rw
          (
            stored,
            redis.get-setex_self c (now / 1000) (now / 1000) 300 key (status_view v) (omega arith),
          )
          refl
  ]

  -- A status that was worked out is read from the cache by the next call.
  pub get_subscription_status_again :
      (v : SubscriptionStatusView)
      → (get_subscription_status prisma now school_id w).0 ≡ ok v
      → get_subscription_status prisma now school_id
          (get_subscription_status prisma now school_id w).1
        ≡ (ok v, (get_subscription_status prisma now school_id w).1)
  get_subscription_status_again v h =
      status-hit (get_subscription_status prisma now school_id w).1 v (status-cached v h)

  check_limit-Below :
      (resource : Resource) (v : SubscriptionStatusView) (x : Platform redis)
      → (check_limit prisma {redis = redis} resource v x).0 ≡ ok tt
      → Below resource v
  check_limit-Below vans v x h = ground arith
  check_limit-Below drivers v x h = ground arith
  check_limit-Below students v x h = ground arith

  -- When the limits are asserted, the status that the school has in the cache or that is worked out
  -- gives access, and its usage of the resource is below the plan's bound.
  pub assert_within_limits-Below :
      (resource : Resource)
      → (assert_within_limits prisma now school_id resource w).0 ≡ ok tt
      → (v : SubscriptionStatusView) × ((get_subscription_status prisma now school_id w).0 ≡ ok v)
        × (v.can_access_platform ≡ true)
        × Below resource v
  unfolding assert_within_limits assert_active_subscription
  assert_within_limits-Below resource h =
      elim (Result-cases (get_subscription_status prisma now school_id w).0) [
        | inr (e, r) ↦ absurd (ground arith)
        | inl (v, r) ↦
            let again = get_subscription_status_again v r in
            let after = (get_subscription_status prisma now school_id w).1 in
            let access : v.can_access_platform ≡ true = ground arith in
            let below : (check_limit prisma {redis = redis} resource v after).0 ≡ ok tt =
              ground arith in
            (v, r, access, check_limit-Below resource v after below)
      ]

  assign-cache :
      (grace_days : ℕ) (dto : AssignSubscriptionDto)
      → (assign_subscription prisma grace_days now school_id dto w).0 ≡ ok tt
      → (assign_subscription prisma grace_days now school_id dto w).1.cache
        ≡ redis.del_matching w.cache (is_key_of_school school_id)
  unfolding assign_subscription
  assign-cache grace_days dto h = ground arith

  -- What a key holds after the assignment of a plan, by its text.
  cleared-or-kept :
      (later : ℕ) (k : RedisKey)
      → let c = redis.del_matching w.cache (is_key_of_school school_id) in
        (OfSchool school_id k
          × (redis.get c later k ≡ none)
          × ((member : ℕ) → redis.is_member c later k member ≡ false))
        ⊎ ((¬ OfSchool school_id k) × (redis.get c later k ≡ redis.get w.cache later k))
  cleared-or-kept later k =
      let p = is_key_of_school school_id in
      elim (Bool-cases (p k)) [
        | inl mine ↦ inl (
          matches-OfSchool school_id k mine,
          redis.get-del_matching w.cache later p k mine,
          λ m. redis.is_member-del_matching w.cache later p k m mine,
        )
        | inr other ↦ inr (
          (λ of. absurd (ground (arith, OfSchool-matches school_id k of))),
          redis.get-del_matching_ne w.cache later p k other,
        )
      ]

  -- An assigned plan empties the cache of the school, and of no other: what is at a key whose text
  -- begins with `school:<id>:`, of this school, is gone, a value and a set alike; the value at any
  -- other key is there as before. Gone are in particular the pairing of each driver, the position of
  -- each trip and the set of active trips.
  pub assign_subscription-cleared :
      (grace_days later driver trip : ℕ) (dto : AssignSubscriptionDto) (k : RedisKey)
      → (assign_subscription prisma grace_days now school_id dto w).0 ≡ ok tt
      → let c = (assign_subscription prisma grace_days now school_id dto w).1.cache in
        ((OfSchool school_id k
            × (redis.get c later k ≡ none)
            × ((member : ℕ) → redis.is_member c later k member ≡ false))
          ⊎ ((¬ OfSchool school_id k) × (redis.get c later k ≡ redis.get w.cache later k)))
        × (get_driver_van_assignment redis later school_id driver c ≡ none)
        × (get_trip_location redis later school_id trip c ≡ none)
        × (redis.is_member c later (active_trips_set school_id) trip ≡ false)
  unfolding get_driver_van_assignment get_trip_location
  assign_subscription-cleared grace_days later driver trip dto k h =
      let mine = ==_refl school_id in
      let p = is_key_of_school school_id in
      rw (assign-cache grace_days dto h) (
        cleared-or-kept later k,
        ap as_ident
            (redis.get-del_matching w.cache later p (driver_van_assignment school_id driver) mine),
        ap as_location (redis.get-del_matching w.cache later p (trip_location school_id trip) mine),
        redis.is_member-del_matching w.cache later p (active_trips_set school_id) trip mine,
      )
