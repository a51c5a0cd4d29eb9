-- ===== src/Trips/Schedule.antt =====
-- `scheduleDaily` of services/api/src/trips/services/trips.service.ts. `new_ids`
-- are the identifiers that the database gives to the trips of the two legs.
use school_van_tracking_saa.Prelude.{
  ℕ, ◌/◌, Bool, Option, none, some, List, [], ◌∷◌, ◌++◌, length, Prisma, Action, pure, or_throw,
  lift, gets, find, ◌>>=◌, not_found, bad_request, ◌&&◌, or_else, route_not_found, van_required,
  driver_required,
}
use school_van_tracking_saa.Schema.{
  AuthUser, Trip, Route, TripDirection, pickup, dropoff, trips_table, routes_table,
}
use school_van_tracking_saa.Redis.{Redis, Value}
use school_van_tracking_saa.Tenant.Context.{resolve_school_id}
use school_van_tracking_saa.Fleet.World.{World, on_db}
use school_van_tracking_saa.Fleet.Cache.{get_van_driver_assignment}
use school_van_tracking_saa.Fleet.Assignment.{is_route}
use school_van_tracking_saa.Trips.Dto.{CreateTripDto, ScheduleTripsDto}
use school_van_tracking_saa.Trips.Service.{create, is_leg}

abbrev pub is_open_route : ℕ → ℕ → Route → Bool
is_open_route school id r = is_route school id r && r.is_active

abbrev pub leg_dto : ℕ → ℕ → ℕ → ℕ → TripDirection → CreateTripDto
leg_dto route van driver date direction = record {
  route_id = route;
  van_id = van;
  driver_id = driver;
  trip_date = date;
  direction = direction;
  students = none;
}

module _ (prisma : Prisma) {redis : Redis Value} where
  abbrev schedule_missing :
      Option Trip → ℕ → AuthUser → CreateTripDto → List ℕ → Action (World redis) (List ℕ)
  schedule_missing (some exists) new_id user dto created = pure created
  schedule_missing none new_id user dto created = do
    trip ← on_db (create prisma new_id user dto)
    pure (created ++ trip.id ∷ [])

  -- One round of the loop over the legs; `created` is what the rounds before made.
  unfoldable pub schedule_leg :
      ℕ → AuthUser → ℕ → CreateTripDto → List ℕ → Action (World redis) (List ℕ)
  schedule_leg new_id user school dto created = do
    exists ←
        on_db (find trips_table prisma (is_leg school dto.route_id dto.trip_date dto.direction))
    schedule_missing exists new_id user dto created

  abbrev pub schedule_legs :
      (TripDirection → ℕ) → AuthUser → ℕ → ℕ → ℕ → ℕ → ℕ → Action (World redis) (List ℕ)
  schedule_legs new_ids user school route van driver date = do
    first ← schedule_leg (new_ids pickup) user school (leg_dto route van driver date pickup) []
    schedule_leg (new_ids dropoff) user school (leg_dto route van driver date dropoff) first

  -- The result is `{ createdCount, tripIds }`.
  unfoldable pub schedule_daily :
      ℕ → (TripDirection → ℕ) → AuthUser → ScheduleTripsDto → Action (World redis) (ℕ × List ℕ)
  schedule_daily now new_ids user dto = do
    school ← lift (resolve_school_id user none)
    found ← on_db (find routes_table prisma (is_open_route school dto.route_id))
    route ← or_throw found (not_found route_not_found)
    van ← or_throw (or_else dto.van_id route.van_id) (bad_request van_required)
    chosen ← gets (λ (w : World redis).
        or_else dto.driver_id (get_van_driver_assignment redis (now / 1000) school van w.cache))
    driver ← or_throw chosen (bad_request driver_required)
    created ← schedule_legs new_ids user school route.id van driver dto.trip_date
    pure (length created, created)
