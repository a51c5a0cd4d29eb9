-- ===== src/Trips/Reach.antt =====
-- Histories of the trips: any sequence of calls of the handlers of TripsService and
-- TripSessionService, each of which may throw.
use school_van_tracking_saa.Prelude.{ℕ, ◌≡◌, sym, subst, Prisma, In, count, ◌==◌, arith}
use school_van_tracking_saa.Schema.{Trip, AuthUser}
use school_van_tracking_saa.Redis.{Redis, Value}
use school_van_tracking_saa.Fleet.World.{World, on_db}
use school_van_tracking_saa.Trips.Lifecycle.{terminal_trip_statuses, terminal-⟶*}
use school_van_tracking_saa.Trips.Dto.{CreateTripDto, UpdateTripDto}
use school_van_tracking_saa.Trips.Service.{create, update_trip, cancel, cancel_in_db}
use school_van_tracking_saa.Trips.Session.{start_trip, stop_trip, start_in_db, stop_in_db}
use school_van_tracking_saa.Trips.Evolution.{
  Evolves, Evolves-refl, Evolves-trans, Evolves-In, UniqueIds,
}
use school_van_tracking_saa.Trips.History.{
  Kept, create-Kept, update_trip-Kept, cancel_in_db-Kept, start_in_db-Kept, stop_in_db-Kept,
}

module _ (prisma : Prisma) (redis : Redis Value) where
  module _ (user : AuthUser) (id : ℕ) (w : World redis) where
    pub cancel-trips :
        (cancel prisma {redis = redis} user id w).1.db.trips
        ≡ (cancel_in_db prisma user id w.db).1.trips
    unfolding cancel
    cancel-trips = ground arith

    pub start_trip-trips :
        (now : ℕ)
        → (start_trip prisma {redis = redis} now user id w).1.db.trips
          ≡ (start_in_db prisma now user id w.db).1.trips
    unfolding start_trip
    start_trip-trips now = ground arith

    pub stop_trip-trips :
        (now : ℕ)
        → (stop_trip prisma {redis = redis} now user id w).1.db.trips
          ≡ (stop_in_db prisma now user id w.db).1.trips
    unfolding stop_trip
    stop_trip-trips now = ground arith

  -- One call. The database gives a new row an identifier that no row has.
  pub data Step (w : World redis) : World redis → Type 0 where
    created :
        (new_id : ℕ) (user : AuthUser) (dto : CreateTripDto)
        → count (λ (t : Trip). t.id == new_id) w.db.trips ≡ 0
        → Step w (on_db (create prisma new_id user dto) w).1
    patched :
        (user : AuthUser) (id : ℕ) (dto : UpdateTripDto)
        → Step w (on_db (update_trip prisma user id dto) w).1
    called_off : (user : AuthUser) (id : ℕ) → Step w (cancel prisma user id w).1
    started : (now : ℕ) (user : AuthUser) (id : ℕ) → Step w (start_trip prisma now user id w).1
    stopped : (now : ℕ) (user : AuthUser) (id : ℕ) → Step w (stop_trip prisma now user id w).1

  pub data Reach : World redis → World redis → Type 0 where
    done : {w : World redis} → Reach w w
    next : {w v u : World redis} → Step w v → Reach v u → Reach w u

  pub Step-Kept : (w v : World redis) → Step w v → UniqueIds w.db.trips → Kept w.db.trips v.db.trips
  Step-Kept w _ (created new_id user dto fresh) u = create-Kept prisma new_id user dto w.db u fresh
  Step-Kept w _ (patched user id dto) u = update_trip-Kept prisma user id w.db u dto
  Step-Kept w _ (called_off user id) u =
      subst (Kept w.db.trips) (sym (cancel-trips user id w))
        (cancel_in_db-Kept prisma user id w.db u)
  Step-Kept w _ (started now user id) u =
      subst (Kept w.db.trips) (sym (start_trip-trips user id w now))
        (start_in_db-Kept prisma user id w.db u now)
  Step-Kept w _ (stopped now user id) u =
      subst (Kept w.db.trips) (sym (stop_trip-trips user id w now))
        (stop_in_db-Kept prisma user id w.db u now)

  -- Through any sequence of calls, whether they succeed or throw, no row of the trips is dropped or
  -- moved, each keeps its identifier, each status is reached from the one of before along the
  -- diagram of the lifecycle, and new rows come after the old ones at a status that the diagram
  -- leads to from SCHEDULED; identifiers stay unique.
  pub Reach-Kept :
      (w v : World redis)
      → Reach w v
      → UniqueIds w.db.trips
      → Evolves w.db.trips v.db.trips × UniqueIds v.db.trips
  Reach-Kept w v done u = (Evolves-refl w.db.trips, u)
  Reach-Kept w v (next {v = m} s r) u =
      let (e, u') = Step-Kept w m s u in
      let (e', u'') = Reach-Kept m v r u' in
      (Evolves-trans w.db.trips m.db.trips v.db.trips e e', u'')

  -- A trip that is completed or cancelled is found again with the same identifier and the same
  -- status after any sequence of calls, from a table whose identifiers are unique.
  pub Reach-terminal :
      (w v : World redis) (t : Trip)
      → Reach w v
      → UniqueIds w.db.trips
      → In t w.db.trips
      → In t.status terminal_trip_statuses
      → (x : Trip) × In x v.db.trips × (x.id ≡ t.id) × (x.status ≡ t.status)
  Reach-terminal w v t r u i over =
      let (x, x_in, same, path) = Evolves-In t w.db.trips v.db.trips (Reach-Kept w v r u).0 i in
      (x, x_in, same, terminal-⟶* over path)
