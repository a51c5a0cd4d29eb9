-- ===== src/Subscription/Kept.antt =====
-- The checks of a school's plan leave the tables of the fleet as they are.
use school_van_tracking_saa.Prelude.{ℕ, Prisma, Keeps, arith}
use school_van_tracking_saa.Schema.{Database}
use school_van_tracking_saa.Redis.{Redis, Value}
use school_van_tracking_saa.Subscription.Store.{Platform}
use school_van_tracking_saa.Subscription.Service.{
  Resource, vans, drivers, students, get_resource_counts, get_subscription_status,
  assert_active_subscription, assert_within_limits,
}

module _ (prisma : Prisma) {redis : Redis Value} (now school : ℕ) where
  abbrev fleet_of : Platform redis → Database
  fleet_of w = w.fleet

  counts-Keeps : Keeps fleet_of (get_resource_counts now school)
  unfolding get_resource_counts
  counts-Keeps w = ground arith

  status-Keeps : Keeps fleet_of (get_subscription_status prisma now school)
  unfolding get_subscription_status
  status-Keeps w = ground (arith, counts-Keeps w)

  pub limits-Keeps :
      (resource : Resource) → Keeps fleet_of (assert_within_limits prisma now school resource)
  unfolding assert_within_limits assert_active_subscription
  limits-Keeps vans w =
      ground (arith, status-Keeps w, status-Keeps (get_subscription_status prisma now school w).1)
  limits-Keeps drivers w =
      ground (arith, status-Keeps w, status-Keeps (get_subscription_status prisma now school w).1)
  limits-Keeps students w =
      ground (arith, status-Keeps w, status-Keeps (get_subscription_status prisma now school w).1)
