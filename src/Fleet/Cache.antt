-- ===== src/Fleet/Cache.antt =====
-- services/api/src/fleet/services/fleet-cache.service.ts. No service writes a key of the form
-- `school:*:routes:list:*`, so that `invalidateRoute` deletes the route's own key only.
use school_van_tracking_saa.Prelude.{ℕ, Option, none, some, Action}
use school_van_tracking_saa.Redis.{
  Redis, Value, as_ident, ident, driver_van_assignment, van_driver_assignment, route_detail,
}
use school_van_tracking_saa.Fleet.World.{World, on_cache}

abbrev pub assignment_seconds : ℕ
assignment_seconds = 3600

module _ {redis : Redis Value} where
  abbrev pub invalidate_route : ℕ → ℕ → Action (World redis) (Unit {0})
  invalidate_route school route = on_cache (λ c. redis.del c (route_detail school route))

module _ (redis : Redis Value) where
  unfoldable pub set_driver_van_assignment : ℕ → ℕ → ℕ → ℕ → redis.Store → redis.Store
  set_driver_van_assignment now school driver van c =
      redis.setex
        (redis.setex c now (driver_van_assignment school driver) assignment_seconds (ident van)) now
        (van_driver_assignment school van) assignment_seconds (ident driver)

  unfoldable pub get_driver_van_assignment : ℕ → ℕ → ℕ → redis.Store → Option ℕ
  get_driver_van_assignment now school driver c =
      as_ident (redis.get c now (driver_van_assignment school driver))

  unfoldable pub get_van_driver_assignment : ℕ → ℕ → ℕ → redis.Store → Option ℕ
  get_van_driver_assignment now school van c =
      as_ident (redis.get c now (van_driver_assignment school van))

  abbrev del_van : ℕ → Option ℕ → redis.Store → redis.Store
  del_van school none c = c
  del_van school (some van) c = redis.del c (van_driver_assignment school van)

  unfoldable pub clear_driver_van_assignment : ℕ → ℕ → Option ℕ → redis.Store → redis.Store
  clear_driver_van_assignment school driver van c =
      del_van school van (redis.del c (driver_van_assignment school driver))
