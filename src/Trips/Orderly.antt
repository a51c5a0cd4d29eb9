-- ===== src/Trips/Orderly.antt =====
-- Histories in which no PATCH request moves a trip to IN_PROGRESS: trips are started by `startTrip`.
use school_van_tracking_saa.Prelude.{◌≢◌, sym, subst, some, Prisma}
use school_van_tracking_saa.Schema.{in_progress}
use school_van_tracking_saa.Redis.{Redis, Value}
use school_van_tracking_saa.Fleet.World.{World}
use school_van_tracking_saa.Trips.Reach.{
  Step, created, patched, called_off, started, stopped, Reach, done, next, cancel-trips,
  start_trip-trips, stop_trip-trips, Step-Kept,
}
use school_van_tracking_saa.Trips.Evolution.{UniqueIds}
use school_van_tracking_saa.Trips.Exclusive.{
  Exclusive, create-Exclusive, update_trip-Exclusive, cancel_in_db-Exclusive, start_in_db-Exclusive,
  stop_in_db-Exclusive,
}

module _ (prisma : Prisma) (redis : Redis Value) where
  abbrev OrderlyStep : {w v : World redis} → Step prisma redis w v → Type 0
  OrderlyStep (patched user id dto) = dto.status ≢ some in_progress
  OrderlyStep _ = Unit

  abbrev pub Orderly : {w v : World redis} → Reach prisma redis w v → Type 0
  Orderly done = Unit
  Orderly (next s r) = OrderlyStep s × Orderly r

  Step-Exclusive :
      (w v : World redis) (s : Step prisma redis w v)
      → OrderlyStep s
      → UniqueIds w.db.trips
      → Exclusive w.db.trips
      → Exclusive v.db.trips
  Step-Exclusive w _ (created new_id user dto fresh) o u ex =
      create-Exclusive prisma new_id user dto w.db ex
  Step-Exclusive w _ (patched user id dto) o u ex =
      update_trip-Exclusive prisma user id w.db u ex dto o
  Step-Exclusive w _ (called_off user id) o u ex =
      subst Exclusive (sym (cancel-trips prisma redis user id w))
        (cancel_in_db-Exclusive prisma user id w.db u ex)
  Step-Exclusive w _ (started now user id) o u ex =
      subst Exclusive (sym (start_trip-trips prisma redis user id w now))
        (start_in_db-Exclusive prisma user id w.db u ex now)
  Step-Exclusive w _ (stopped now user id) o u ex =
      subst Exclusive (sym (stop_trip-trips prisma redis user id w now))
        (stop_in_db-Exclusive prisma user id w.db u ex now)

  -- From a table whose identifiers are unique and in which no driver and no van of a school has two
  -- trips in progress, any sequence of calls, whether they succeed or throw, in which no PATCH
  -- request asks for IN_PROGRESS, leads to a table in which this holds too.
  pub Reach-Exclusive :
      (w v : World redis) (r : Reach prisma redis w v)
      → Orderly r
      → UniqueIds w.db.trips
      → Exclusive w.db.trips
      → Exclusive v.db.trips
  Reach-Exclusive w v done o u ex = ex
  Reach-Exclusive w v (next {v = m} s r) o u ex =
      Reach-Exclusive m v r o.1 (Step-Kept prisma redis w m s u).1 (Step-Exclusive w m s o.0 u ex)
