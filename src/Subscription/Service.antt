-- ===== src/Subscription/Service.antt =====
-- services/api/src/schools/services/subscription.service.ts, with the `get`, `set` and
-- `invalidateSchool` of services/api/src/common/tenant/tenant-cache.service.ts. `now` is in
-- milliseconds; `grace_days` and `trial_days` are configured.
use school_van_tracking_saa.Prelude.{
  ℕ, ◌+◌, ◌*◌, ◌/◌, Bool, true, false, Option, none, some, List, [], ◌∷◌, ◌++◌, any, Prisma, Action,
  pure, throw_if, or_throw, gets, modify, find, update, create as create_row, count, ◌>>=◌, ◌>>◌,
  not_found, bad_request, record_not_found, unique_violation, ◌==◌, leb, not, ◌&&◌, get_or,
  if◌then◌else◌, update_where, plan_not_found, no_subscription, status_inactive, van_limit,
  driver_limit, student_limit, analytics_unavailable,
}
use school_van_tracking_saa.Schema.{
  PlanTier, BillingStatus, SchoolOperationalStatus, Van, Driver, Student,
}
use school_van_tracking_saa.Redis.{
  Redis, RedisKey, Value, SubscriptionStatusView, Usage, status_view, counts, as_status_view,
  as_counts, subscription_status, usage_counts,
}
use school_van_tracking_saa.Redis.Templates.{segments, matches_school}
use school_van_tracking_saa.Subscription.Store.{
  SchoolSubscription, PlanCatalog, Platform, schools_table, subscriptions_table, plans_table,
}
use school_van_tracking_saa.Subscription.Status.{status_of}

pub data Resource : Type 0 where
  vans drivers students : Resource

pub record AssignSubscriptionDto : Type 0 where
  pub plan_tier : PlanTier
  pub billing_status : Option BillingStatus
  pub ends_at : Option ℕ
  pub grace_ends_at : Option ℕ

abbrev pub tier_eq : PlanTier → PlanTier → Bool
tier_eq PlanTier.basic PlanTier.basic = true
tier_eq PlanTier.standard PlanTier.standard = true
tier_eq PlanTier.premium PlanTier.premium = true
tier_eq _ _ = false

-- The pattern `school:<id>:*` of `invalidateSchool`.
abbrev pub is_key_of_school : ℕ → RedisKey → Bool
is_key_of_school school key = matches_school school (segments key)

abbrev pub day_ms : ℕ
day_ms = 86400000

abbrev grace_from : ℕ → Option ℕ → Option ℕ → Option ℕ
grace_from grace_days (some given) ends = some given
grace_from grace_days none (some ends) = some (ends + grace_days * day_ms)
grace_from grace_days none none = none

-- `upsert` under the unique `schoolId`
abbrev upsert_subscription : SchoolSubscription → List SchoolSubscription → List SchoolSubscription
upsert_subscription row rows =
    if any (λ (s : SchoolSubscription). s.school_id == row.school_id) rows
    then update_where (λ (s : SchoolSubscription). s.school_id == row.school_id)
        (λ s. record s {
          plan_catalog_id = row.plan_catalog_id;
          billing_status = row.billing_status;
          ends_at = row.ends_at;
          grace_ends_at = row.grace_ends_at;
        })
        rows
    else rows ++ row ∷ []

abbrev pub trial_row : ℕ → ℕ → ℕ → ℕ → ℕ → SchoolSubscription
trial_row grace_days trial_days now school_id plan_id = record {
  school_id = school_id;
  plan_catalog_id = plan_id;
  billing_status = BillingStatus.trial;
  starts_at = now;
  ends_at = some (now + trial_days * day_ms);
  grace_ends_at = some (now + trial_days * day_ms + grace_days * day_ms);
  trial_ends_at = some (now + trial_days * day_ms);
}

module _ {redis : Redis Value} where
  abbrev pub set_key : ℕ → RedisKey → Value → ℕ → Action (Platform redis) (Unit {0})
  set_key now key value ttl =
      modify (λ (w : Platform redis). record w {
        cache = redis.setex w.cache (now / 1000) key ttl value;
      })

  abbrev pub invalidate_school : ℕ → Action (Platform redis) (Unit {0})
  invalidate_school school = modify (λ (w : Platform redis). record w {
    cache = redis.del_matching w.cache (is_key_of_school school);
  })

  abbrev count_resources : ℕ → Platform redis → Usage
  count_resources school w = record {
    vans = count (λ (x : Van). (x.school_id == school) && not x.is_deleted) w.fleet.vans;
    drivers = count (λ (x : Driver). (x.school_id == school) && not x.is_deleted) w.fleet.drivers;
    students =
        count (λ (x : Student). (x.school_id == school) && not x.is_deleted) w.fleet.students;
  }

  abbrev counts_or_load : ℕ → ℕ → Option Usage → Action (Platform redis) Usage
  counts_or_load now school (some cached) = pure cached
  counts_or_load now school none = do
    usage ← gets (count_resources school)
    set_key now (usage_counts school) (counts usage) 120
    pure usage

  unfoldable pub get_resource_counts : ℕ → ℕ → Action (Platform redis) Usage
  get_resource_counts now school = do
    cached ←
        gets
          (λ (w : Platform redis). as_counts (redis.get w.cache (now / 1000) (usage_counts school)))
    counts_or_load now school cached

module _ (prisma : Prisma) {redis : Redis Value} where
  abbrev pub get_plan_catalog : PlanTier → Action (Platform redis) PlanCatalog
  get_plan_catalog tier = do
    plan ← find plans_table prisma (λ p. tier_eq p.tier tier)
    or_throw plan (not_found plan_not_found)

  -- The relation `planCatalog` is required: its row is there.
  abbrev load_status : ℕ → ℕ → Action (Platform redis) SubscriptionStatusView
  load_status now school_id = do
    found ← find schools_table prisma (λ s. (s.id == school_id) && not s.is_deleted)
    school ← or_throw found (bad_request no_subscription)
    subscription ← find subscriptions_table prisma (λ s. s.school_id == school_id)
    sub ← or_throw subscription (bad_request no_subscription)
    catalog ← find plans_table prisma (λ p. p.id == sub.plan_catalog_id)
    plan ← or_throw catalog record_not_found
    usage ← get_resource_counts now school_id
    set_key now (subscription_status school_id) (status_view (status_of now school sub plan usage))
        300
    pure (status_of now school sub plan usage)

  abbrev status_or_load :
      ℕ → ℕ → Option SubscriptionStatusView → Action (Platform redis) SubscriptionStatusView
  status_or_load now school_id (some cached) = pure cached
  status_or_load now school_id none = load_status now school_id

  unfoldable pub get_subscription_status : ℕ → ℕ → Action (Platform redis) SubscriptionStatusView
  get_subscription_status now school_id = do
    cached ← gets (λ (w : Platform redis).
        as_status_view (redis.get w.cache (now / 1000) (subscription_status school_id)))
    status_or_load now school_id cached

  unfoldable pub assert_active_subscription : ℕ → ℕ → Action (Platform redis) (Unit {0})
  assert_active_subscription now school_id = do
    status ← get_subscription_status now school_id
    throw_if (not status.can_access_platform) (bad_request (get_or status.message status_inactive))

  abbrev pub check_limit : Resource → SubscriptionStatusView → Action (Platform redis) (Unit {0})
  check_limit vans status =
      throw_if (leb status.features.max_vans status.usage.vans) (bad_request van_limit)
  check_limit drivers status =
      throw_if (leb status.features.max_drivers status.usage.drivers) (bad_request driver_limit)
  check_limit students status =
      throw_if (leb status.features.max_students status.usage.students) (bad_request student_limit)

  unfoldable pub assert_within_limits : ℕ → ℕ → Resource → Action (Platform redis) (Unit {0})
  assert_within_limits now school_id resource = do
    assert_active_subscription now school_id
    status ← get_subscription_status now school_id
    check_limit resource status

  unfoldable pub assert_analytics_enabled : ℕ → ℕ → Action (Platform redis) (Unit {0})
  assert_analytics_enabled now school_id = do
    status ← get_subscription_status now school_id
    throw_if (not status.features.analytics_enabled) (bad_request analytics_unavailable)

  unfoldable pub assign_subscription :
      ℕ → ℕ → ℕ → AssignSubscriptionDto → Action (Platform redis) (Unit {0})
  assign_subscription grace_days now school_id dto = do
    plan ← get_plan_catalog dto.plan_tier
    modify (λ (w : Platform redis). record w {
      subscriptions =
          upsert_subscription
            (record {
              school_id = school_id;
              plan_catalog_id = plan.id;
              billing_status = get_or dto.billing_status BillingStatus.active;
              starts_at = now;
              ends_at = dto.ends_at;
              grace_ends_at = grace_from grace_days dto.grace_ends_at dto.ends_at;
              trial_ends_at = none;
            })
            w.subscriptions;
    })
    invalidate_school school_id

  unfoldable pub create_trial_subscription :
      ℕ → ℕ → ℕ → ℕ → PlanTier → Action (Platform redis) (Unit {0})
  create_trial_subscription grace_days trial_days now school_id tier = do
    plan ← get_plan_catalog tier
    taken ← gets (λ (w : Platform redis).
        any (λ (s : SchoolSubscription). s.school_id == school_id) w.subscriptions)
    throw_if taken unique_violation
    create_row subscriptions_table (trial_row grace_days trial_days now school_id plan.id)
    update schools_table (λ s. s.id == school_id)
        (λ s. record s {
          status = SchoolOperationalStatus.trial;
          trial_ends_at = some (now + trial_days * day_ms);
        })
    invalidate_school school_id
