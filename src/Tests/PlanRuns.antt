-- ===== src/Tests/PlanRuns.antt =====
-- Runs of the subscription service on the small school.
use school_van_tracking_saa.Prelude.{
  ℕ, ◌≡◌, ◌≢◌, ◌↔◌, ◌⊎◌, refl, true, false, none, some, [], ◌∷◌, ok,
}
use school_van_tracking_saa.Schema.{BillingStatus, SchoolOperationalStatus, PlanTier}
use school_van_tracking_saa.Redis.{SubscriptionStatusView, Usage, active_trips_set, van_location}
use school_van_tracking_saa.Fleet.Cache.{get_driver_van_assignment}
use school_van_tracking_saa.Tracking.Cache.{get_trip_location}
use school_van_tracking_saa.Redis.Templates.{OfSchool}
use school_van_tracking_saa.Subscription.Store.{School, SchoolSubscription, PlanCatalog, Platform}
use school_van_tracking_saa.Subscription.Status.{
  status_of, status_of-access_iff, is_school_inactive, is_past, is_ahead,
}
use school_van_tracking_saa.Subscription.Service.{
  Resource, trial_row, AssignSubscriptionDto, get_resource_counts, get_subscription_status,
  assert_active_subscription, assert_within_limits, assign_subscription,
}
use school_van_tracking_saa.Subscription.Access.{
  Below, assert_within_limits-Below, assign_subscription-cleared,
}
use school_van_tracking_saa.Tests.Clients.{
  first_row, key_space, empty_space, RedisKey-discrete, pick, ℕ_discrete,
}
use school_van_tracking_saa.Tests.School.{morning, school_with}

abbrev the_school : School
the_school = record {
  id = 1;
  code = 11;
  is_active = true;
  status = SchoolOperationalStatus.trial;
  trial_ends_at = none;
  is_deleted = false;
}

abbrev basic : PlanCatalog
basic = record {
  id = 30;
  tier = PlanTier.basic;
  features = record {
    max_vans = 5;
    max_drivers = 5;
    max_students = 100;
    tracking_logs_per_day = 1000;
    analytics_enabled = false;
  };
}

abbrev trial : SchoolSubscription
trial = trial_row 7 14 1000 1 30

abbrev used : Usage
used = record { vans = 2; drivers = 1; students = 1 }

abbrev pub platform : Platform key_space
platform = record {
  schools = the_school ∷ [];
  subscriptions = trial ∷ [];
  plans = basic ∷ [];
  fleet = school_with morning;
  cache = empty_space;
}

abbrev pub view : SubscriptionStatusView
view = record {
  school_id = 1;
  plan_tier = PlanTier.basic;
  billing_status = BillingStatus.trial;
  can_access_platform = true;
  in_trial = true;
  in_grace_period = false;
  is_expired = false;
  trial_ends_at = trial.trial_ends_at;
  ends_at = trial.ends_at;
  grace_ends_at = trial.grace_ends_at;
  message = none;
  features = basic.features;
  usage = used;
}

status_of-access_iff_example :
    ((status_of 2000 the_school trial basic used).can_access_platform ≡ true) ↔ (
      (is_school_inactive the_school ≡ false)
      × (trial.billing_status ≢ BillingStatus.cancelled)
      × (((is_past trial.ends_at 2000 ≡ true) × (is_ahead trial.grace_ends_at 2000 ≡ true))
          ⊎ ((is_past trial.ends_at 2000 ≡ false)
              × ((trial.billing_status ≢ BillingStatus.trial)
                  ⊎ (is_past trial.trial_ends_at 2000 ≡ false)))))
status_of-access_iff_example = status_of-access_iff 2000 the_school trial basic used

assert_within_limits-Below_example :
    (v : SubscriptionStatusView) × ((get_subscription_status first_row 2000 1 platform).0 ≡ ok v)
    × (v.can_access_platform ≡ true)
    × Below Resource.vans v
unfolding assert_within_limits assert_active_subscription get_subscription_status
    get_resource_counts status_of RedisKey-discrete pick ℕ_discrete
assert_within_limits-Below_example =
    assert_within_limits-Below first_row 2000 1 platform Resource.vans refl

abbrev paid : AssignSubscriptionDto
paid = record {
  plan_tier = PlanTier.basic;
  billing_status = none;
  ends_at = some 9000000000;
  grace_ends_at = none;
}

assign_subscription-cleared_example :
    let c = (assign_subscription first_row 7 2000 1 paid platform).1.cache in
    ((OfSchool 1 (van_location 1 3)
        × (key_space.get c 3 (van_location 1 3) ≡ none)
        × ((member : ℕ) → key_space.is_member c 3 (van_location 1 3) member ≡ false))
      ⊎ ((¬ OfSchool 1 (van_location 1 3))
          × (key_space.get c 3 (van_location 1 3)
              ≡ key_space.get platform.cache 3 (van_location 1 3))))
    × (get_driver_van_assignment key_space 3 1 5 c ≡ none)
    × (get_trip_location key_space 3 1 10 c ≡ none)
    × (key_space.is_member c 3 (active_trips_set 1) 10 ≡ false)
unfolding assign_subscription
assign_subscription-cleared_example =
    assign_subscription-cleared first_row 2000 1 platform 7 3 5 10 paid (van_location 1 3) refl
