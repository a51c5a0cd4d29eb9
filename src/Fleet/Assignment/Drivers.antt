-- ===== src/Fleet/Assignment/Drivers.antt =====
-- The pairing of drivers and vans that `assignDriverToVan` keeps in Redis for an hour.
use school_van_tracking_saa.Prelude.{ℕ, ◌+◌, ◌/◌, ◌<◌, ◌≡◌, ◌≢◌, some, Prisma, ok, arith, ◌∙◌, ap}
use school_van_tracking_saa.Redis.{
  Redis, Value, as_ident, ident, driver_van_assignment, van_driver_assignment,
}
use school_van_tracking_saa.Fleet.World.{World}
use school_van_tracking_saa.Fleet.Cache.{
  get_driver_van_assignment, get_van_driver_assignment, set_driver_van_assignment,
}
use school_van_tracking_saa.Fleet.Assignment.{assign_driver_to_van}

module _ (redis : Redis Value) (c : redis.Store) (now later school driver van : ℕ) where
  -- Within the hour both directions of a pairing that was set can be read back.
  set_assignment-get :
      later < now + 3600
      → let c' = set_driver_van_assignment redis now school driver van c in
        (get_driver_van_assignment redis later school driver c' ≡ some van)
        × (get_van_driver_assignment redis later school van c' ≡ some driver)
  unfolding set_driver_van_assignment get_driver_van_assignment get_van_driver_assignment
  set_assignment-get h = (
    ap as_ident (
        redis.get-setex_ne _ now later 3600 (van_driver_assignment school van)
          (driver_van_assignment school driver) (ident driver) (λ e. cc)
        ∙ redis.get-setex_self c now later 3600 (driver_van_assignment school driver) (ident van)
            h),
    ap as_ident
        (redis.get-setex_self _ now later 3600 (van_driver_assignment school van) (ident driver) h),
  )

  -- The entry of another van is left as it was.
  set_assignment-get_other :
      (other : ℕ)
      → other ≢ van
      → get_van_driver_assignment redis later school other
          (set_driver_van_assignment redis now school driver van c)
        ≡ get_van_driver_assignment redis later school other c
  unfolding set_driver_van_assignment get_van_driver_assignment
  set_assignment-get_other other ne = ap as_ident (
      redis.get-setex_ne _ now later 3600 (van_driver_assignment school van)
        (van_driver_assignment school other) (ident driver) (λ e. ne (cc))
      ∙ redis.get-setex_ne c now later 3600 (driver_van_assignment school driver)
          (van_driver_assignment school other) (ident van) (λ e. cc))

module _ (prisma : Prisma) {redis : Redis Value} (now school driver van : ℕ) (w : World redis) where
  -- The store after an assignment that was accepted.
  assign_driver_to_van-cache :
      (assign_driver_to_van prisma now school driver van w).0 ≡ ok tt
      → (assign_driver_to_van prisma now school driver van w).1.cache
        ≡ set_driver_van_assignment redis (now / 1000) school driver van w.cache
  unfolding assign_driver_to_van
  assign_driver_to_van-cache h = ground arith

  -- After a driver was assigned to a van, both can be looked up from the other for an hour.
  pub assign_driver_to_van-get :
      (later : ℕ)
      → later < now / 1000 + 3600
      → (assign_driver_to_van prisma now school driver van w).0 ≡ ok tt
      → let c' = (assign_driver_to_van prisma now school driver van w).1.cache in
        (get_driver_van_assignment redis later school driver c' ≡ some van)
        × (get_van_driver_assignment redis later school van c' ≡ some driver)
  assign_driver_to_van-get later in_time h =
      rw (assign_driver_to_van-cache h)
        (set_assignment-get redis w.cache (now / 1000) later school driver van in_time)

  -- A driver who moves to another van stays the driver of the old one: its entry is not cleared.
  pub assign_driver_to_van-stale :
      (old later : ℕ)
      → old ≢ van
      → get_van_driver_assignment redis later school old w.cache ≡ some driver
      → (assign_driver_to_van prisma now school driver van w).0 ≡ ok tt
      → get_van_driver_assignment redis later school old
          (assign_driver_to_van prisma now school driver van w).1.cache
        ≡ some driver
  assign_driver_to_van-stale old later ne was h =
      rw (assign_driver_to_van-cache h)
        (set_assignment-get_other redis w.cache (now / 1000) later school driver van old ne ∙ was)
