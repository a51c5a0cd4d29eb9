-- ===== src/Subscription/Store.antt =====
-- The rows of `School`, `SchoolSubscription` and `PlanCatalog` of
-- services/api/prisma/schema.prisma, with the columns that the service reads or writes. Instants are
-- in milliseconds.
use school_van_tracking_saa.Prelude.{ℕ, Bool, Option, List, Table}
use school_van_tracking_saa.Schema.{PlanTier, BillingStatus, SchoolOperationalStatus, Database}
use school_van_tracking_saa.Redis.{Redis, Value, Features}

pub record School : Type 0 where
  pub id : ℕ
  pub code : ℕ
  pub is_active : Bool
  pub status : SchoolOperationalStatus
  pub trial_ends_at : Option ℕ
  pub is_deleted : Bool

pub record SchoolSubscription : Type 0 where
  pub school_id : ℕ
  pub plan_catalog_id : ℕ
  pub billing_status : BillingStatus
  pub starts_at : ℕ
  pub ends_at : Option ℕ
  pub grace_ends_at : Option ℕ
  pub trial_ends_at : Option ℕ

pub record PlanCatalog : Type 0 where
  pub id : ℕ
  pub tier : PlanTier
  pub features : Features

pub record Platform (redis : Redis Value) : Type 0 where
  pub schools : List School
  pub subscriptions : List SchoolSubscription
  pub plans : List PlanCatalog
  pub fleet : Database
  pub cache : redis.Store

module _ {redis : Redis Value} where
  abbrev pub schools_table : Table (Platform redis) School
  schools_table = record { rows = λ d. d.schools; with_rows = λ r d. record d { schools = r } }

  abbrev pub subscriptions_table : Table (Platform redis) SchoolSubscription
  subscriptions_table = record {
    rows = λ d. d.subscriptions;
    with_rows = λ r d. record d { subscriptions = r };
  }

  abbrev pub plans_table : Table (Platform redis) PlanCatalog
  plans_table = record { rows = λ d. d.plans; with_rows = λ r d. record d { plans = r } }
