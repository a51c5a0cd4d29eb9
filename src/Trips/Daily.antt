-- ===== src/Trips/Daily.antt =====
-- Scheduling the trips of a day twice.
use school_van_tracking_saa.Prelude.{
  ℕ, ◌<◌, ◌≤◌, ◌≡◌, refl, sym, ◌∙◌, ap, subst, ◌⊎◌, inl, inr, Bool, none, some, List, [], ◌∷◌,
  count, arith, Prisma, Result, ok, Option-cases, Result-cases, Action, pure, ◌>>=◌, bind-ok,
  bind-eq-ok, or_else, In-count, count-append, length,
}
use school_van_tracking_saa.Schema.{Trip, Route, TripDirection, pickup, dropoff, AuthUser, Database}
use school_van_tracking_saa.Redis.{Redis, Value}
use school_van_tracking_saa.Tenant.Context.{resolve_school_id}
use school_van_tracking_saa.Fleet.World.{World}
use school_van_tracking_saa.Trips.Dto.{CreateTripDto, ScheduleTripsDto}
use school_van_tracking_saa.Trips.Service.{create, is_leg, new_trip}
use school_van_tracking_saa.Trips.Schedule.{
  is_open_route, schedule_leg, schedule_legs, leg_dto, schedule_daily,
}
use school_van_tracking_saa.Trips.Updates.{create-trips, create-routes, create-created}

module _ (prisma : Prisma) (redis : Redis Value) (user : AuthUser) (school : ℕ)
    (own : resolve_school_id user none ≡ ok school) (new_id : ℕ) (dto : CreateTripDto)
    (created : List ℕ) (w : World redis) where
  abbrev leg : Trip → Bool
  leg = is_leg school dto.route_id dto.trip_date dto.direction

  abbrev after : World redis
  after = (schedule_leg prisma new_id user school dto created w).1

  abbrev made : Result Trip × Database
  made = create prisma new_id user dto w.db

  -- A leg that has a trip is left alone.
  pub leg-quiet :
      0 < count leg w.db.trips
      → schedule_leg prisma new_id user school dto created w ≡ (ok created, w)
  unfolding schedule_leg
  leg-quiet has = elim (Option-cases (prisma.find_first leg w.db.trips)) [
    | inl n ↦ absurd (ground (arith, prisma.find_first_complete leg w.db.trips n))
    | inr (t, s) ↦ rw s refl
  ]

  -- The world after a leg: the same if the leg had a trip, and else what `create` leaves.
  leg-world :
      ((after ≡ w) × (0 < count leg w.db.trips))
      ⊎ ((after ≡ record w { db = made.1 })
          × ((ids : List ℕ)
              → (schedule_leg prisma new_id user school dto created w).0 ≡ ok ids
              → (t : Trip) × (made.0 ≡ ok t)))
  unfolding schedule_leg
  leg-world = elim (Option-cases (prisma.find_first leg w.db.trips)) [
    | inl n ↦ elim (Result-cases made.0) [
      | inl (t, r) ↦ inr (ground arith, λ ids h. (t, r))
      | inr (e, r) ↦ inr (ground arith, λ ids h. absurd (ground arith))
    ]
    | inr (t, s) ↦
        let (fits, here) = prisma.find_first_sound leg w.db.trips s in
        inl (ground arith, In-count leg t w.db.trips here fits)
  ]

  pub leg-frame : (after.cache ≡ w.cache) × (after.db.routes ≡ w.db.routes)
  leg-frame = elim leg-world [
    | inl (same, _) ↦ rw same (refl, refl)
    | inr (e, _) ↦ rw e (refl, create-routes prisma new_id user dto w.db)
  ]

  -- A leg that succeeds has a trip afterwards.
  pub leg-has :
      (ids : List ℕ)
      → (schedule_leg prisma new_id user school dto created w).0 ≡ ok ids
      → 0 < count leg after.db.trips
  leg-has ids h = elim leg-world [
    | inl (same, has) ↦ rw same has
    | inr (e, made_it) ↦
        let (t, r) = made_it ids h in
        let (s, res, trips) = create-created prisma new_id user dto w.db t r in
        let same_school : s ≡ school = ground arith in
        rw (e, trips, count-append leg w.db.trips (new_trip new_id s dto ∷ []), same_school)
          (ground arith)
  ]

  pub leg-grows : (p : Trip → Bool) → count p w.db.trips ≤ count p after.db.trips
  leg-grows p = elim leg-world [
    | inl (same, _) ↦ rw same (ground arith)
    | inr (e, _) ↦ rw e (elim (create-trips prisma new_id user dto w.db) [
      | inl same ↦ rw same (ground arith)
      | inr (s, _, trips) ↦
          rw trips (ground (arith, count-append p w.db.trips (new_trip new_id s dto ∷ [])))
    ])
  ]

module _ (prisma : Prisma) (redis : Redis Value) (user : AuthUser) (school : ℕ)
    (own : resolve_school_id user none ≡ ok school) (route van who date : ℕ) where
  abbrev Served : World redis → Type 0
  Served w =
      (0 < count (is_leg school route date pickup) w.db.trips)
      × (0 < count (is_leg school route date dropoff) w.db.trips)

  abbrev legs : (TripDirection → ℕ) → World redis → Result (List ℕ) × World redis
  legs new_ids = schedule_legs prisma new_ids user school route van who date

  abbrev leg_of : (TripDirection → ℕ) → TripDirection → List ℕ → Action (World redis) (List ℕ)
  leg_of new_ids direction created =
      schedule_leg prisma (new_ids direction) user school (leg_dto route van who date direction)
        created

  legs-Served :
      (new_ids : TripDirection → ℕ) (w : World redis) (ids : List ℕ)
      → (legs new_ids w).0 ≡ ok ids
      → Served (legs new_ids w).1 × ((legs new_ids w).1.db.routes ≡ w.db.routes)
  legs-Served new_ids w ids h = elim (Result-cases (leg_of new_ids pickup [] w).0) [
    | inl (first, r) ↦
        let w1 = (leg_of new_ids pickup [] w).1 in
        let dto1 = leg_dto route van who date pickup in
        let dto2 = leg_dto route van who date dropoff in
        let e = bind-ok (leg_of new_ids pickup []) (leg_of new_ids dropoff) w first r in
        let done : (leg_of new_ids dropoff first w1).0 ≡ ok ids =
          sym (ap (λ (x : Result (List ℕ) × World redis). x.0) e) ∙ h in
        let has1 = leg-has prisma redis user school own (new_ids pickup) dto1 [] w first r in
        let more =
          leg-grows prisma redis user school own (new_ids dropoff) dto2 first w1
            (is_leg school route date pickup) in
        let has2 = leg-has prisma redis user school own (new_ids dropoff) dto2 first w1 ids done in
        let same1 = leg-frame prisma redis user school own (new_ids pickup) dto1 [] w in
        let same2 = leg-frame prisma redis user school own (new_ids dropoff) dto2 first w1 in
        subst (λ (x : Result (List ℕ) × World redis). Served x.1 × (x.1.db.routes ≡ w.db.routes))
          (sym e) ((omega (arith, has1, more), has2), same2.1 ∙ same1.1)
    | inr (e, r) ↦ absurd (ground arith)
  ]

  legs-quiet :
      (new_ids : TripDirection → ℕ) (w : World redis) → Served w → legs new_ids w ≡ (ok [], w)
  legs-quiet new_ids w (p, q) =
      let e =
        leg-quiet prisma redis user school own (new_ids pickup) (leg_dto route van who date pickup)
          [] w p in
      bind-ok (leg_of new_ids pickup []) (leg_of new_ids dropoff) w []
        (ap (λ (x : Result (List ℕ) × World redis). x.0) e)
      ∙ ap (λ (x : Result (List ℕ) × World redis). leg_of new_ids dropoff [] x.1) e
      ∙ leg-quiet prisma redis user school own (new_ids dropoff)
          (leg_dto route van who date dropoff) [] w q

module _ (prisma : Prisma) (redis : Redis Value) (now : ℕ) (user : AuthUser)
    (dto : ScheduleTripsDto) (who : ℕ) (named : dto.driver_id ≡ some who) (w : World redis) where
  -- The run, once the route and the van are known.
  daily-legs :
      (new_ids : TripDirection → ℕ) (school : ℕ) (route : Route) (van : ℕ)
      → resolve_school_id user none ≡ ok school
      → prisma.find_first (is_open_route school dto.route_id) w.db.routes ≡ some route
      → or_else dto.van_id route.van_id ≡ some van
      → schedule_daily prisma now new_ids user dto w
        ≡ (schedule_legs prisma new_ids user school route.id van who dto.trip_date >>= λ ids.
              pure (length ids, ids))
            w
  unfolding schedule_daily
  daily-legs new_ids school route van own found with_van = rw (own, found, with_van, named) refl

  daily-known :
      (new_ids : TripDirection → ℕ) (r : ℕ × List ℕ)
      → (schedule_daily prisma now new_ids user dto w).0 ≡ ok r
      → (school : ℕ) × (route : Route) × (van : ℕ) × (resolve_school_id user none ≡ ok school)
        × (prisma.find_first (is_open_route school dto.route_id) w.db.routes ≡ some route)
        × (or_else dto.van_id route.van_id ≡ some van)
  unfolding schedule_daily
  daily-known new_ids r h = elim (Result-cases (resolve_school_id user none)) [
    | inr (e, n) ↦ absurd (ground arith)
    | inl (school, own) ↦
        elim (Option-cases (prisma.find_first (is_open_route school dto.route_id) w.db.routes)) [
          | inl n ↦ absurd (ground arith)
          | inr (route, found) ↦ elim (Option-cases (or_else dto.van_id route.van_id)) [
            | inl n ↦ absurd (ground arith)
            | inr (van, with_van) ↦ (school, route, van, own, found, with_van)
          ]
        ]
  ]

-- If a day is scheduled with a named driver and the call succeeds, then calling it again, at any
-- later time, succeeds, creates no trip, and changes nothing.
pub schedule_daily_idempotent :
    (prisma : Prisma) (redis : Redis Value) (now later : ℕ) (new_ids other_ids : TripDirection → ℕ)
    (user : AuthUser) (dto : ScheduleTripsDto) (who : ℕ) (w : World redis) (r : ℕ × List ℕ)
    → dto.driver_id ≡ some who
    → (schedule_daily prisma now new_ids user dto w).0 ≡ ok r
    → schedule_daily prisma later other_ids user dto
        (schedule_daily prisma now new_ids user dto w).1
      ≡ (ok (0, []), (schedule_daily prisma now new_ids user dto w).1)
schedule_daily_idempotent prisma redis now later new_ids other_ids user dto who w r named h =
    let (school, route, van, own, found, with_van) =
      daily-known prisma redis now user dto who named w new_ids r h in
    let e =
      daily-legs prisma redis now user dto who named w new_ids school route van own found
        with_van in
    let date = dto.trip_date in
    let m = schedule_legs prisma new_ids user school route.id van who date in
    let k : List ℕ → Action (World redis) (ℕ × List ℕ) = λ ids. pure (length ids, ids) in
    let h2 : ((m >>= k) w).0 ≡ ok r =
      sym (ap (λ (x : Result (ℕ × List ℕ) × World redis). x.0) e) ∙ h in
    let (ids, done, _) = bind-eq-ok m k w h2 in
    let v = (m w).1 in
    let e2 : schedule_daily prisma now new_ids user dto w ≡ (ok (length ids, ids), v) =
      e ∙ bind-ok m k w ids done in
    let (served, routes) =
      legs-Served prisma redis user school own route.id van who date new_ids w ids done in
    let quiet = legs-quiet prisma redis user school own route.id van who date other_ids v served in
    let again : schedule_daily prisma later other_ids user dto v ≡ (ok (0, []), v) =
      daily-legs prisma redis later user dto who named v other_ids school route van own
        (ap (prisma.find_first (is_open_route school dto.route_id)) routes ∙ found) with_van
      ∙ bind-ok (schedule_legs prisma other_ids user school route.id van who date) k v []
          (ap (λ (x : Result (List ℕ) × World redis). x.0) quiet)
      ∙ ap (λ (x : Result (List ℕ) × World redis). (ok (0, []), x.1)) quiet in
    subst
      (λ (x : Result (ℕ × List ℕ) × World redis).
        schedule_daily prisma later other_ids user dto x.1 ≡ (ok (0, []), x.1))
      (sym e2) again
