-- ===== src/Trips/Exclusive.antt =====
-- Trips in progress of one driver or one van, and the two `assertNoActiveTripFor…` checks of
-- services/api/src/tracking/services/trip-session.service.ts.
use school_van_tracking_saa.Prelude.{
  ℕ, ◌+◌, ◌≤◌, ◌≡◌, ◌≢◌, sym, ◌⊎◌, inl, inr, Bool, true, false, none, some, List, [], ◌∷◌, In,
  count, arith, ◌==◌, Prisma, Result, ok, All-of_unique, In-any, In-count, count-append,
  count-update_where-le, count-update_where-le_of_All, count-update_where-add, Bool-cases,
}
use school_van_tracking_saa.Schema.{Trip, AuthUser, Database, in_progress}
use school_van_tracking_saa.Fleet.Assignment.{is_active_of_driver, is_active_of_van}
use school_van_tracking_saa.Trips.Dto.{CreateTripDto, UpdateTripDto}
use school_van_tracking_saa.Trips.Service.{
  patch, called_off, update_trip, create, cancel_in_db, new_trip, check_update,
}
use school_van_tracking_saa.Trips.Session.{started, stopped, start_in_db, stop_in_db}
use school_van_tracking_saa.Trips.Evolution.{UniqueIds}
use school_van_tracking_saa.Trips.Checks.{
  check_update-Found, check_update-live, check_cancel-Found, check_start-Startable,
  check_stop-Found,
}
use school_van_tracking_saa.Trips.Updates.{
  Updated, update_trip-changed, update_trip-Updated, cancel_in_db-Updated, start_in_db-Updated,
  stop_in_db-Updated, create-trips,
}

-- No driver and no van of a school has two trips in progress.
abbrev pub Exclusive : List Trip → Type 0
Exclusive ts =
    ((school who : ℕ) → count (is_active_of_driver school who) ts ≤ 1)
    × ((school van : ℕ) → count (is_active_of_van school van) ts ≤ 1)

-- A change of `t` adds nothing to the rows that fit `p`, or no row fits yet.
abbrev Harmless : (Trip → Bool) → (Trip → Trip) → List Trip → Trip → Type 0
Harmless p f ts t = (p (f t) ≡ true → p t ≡ true) ⊎ (count p ts ≡ 0)

module _ (id : ℕ) (f : Trip → Trip) (d : Database) (checked : Result Trip) (after : List Trip) where
  Updated-count-le :
      (p : Trip → Bool)
      → UniqueIds d.trips
      → Updated id f d checked after
      → ((t : Trip) → checked ≡ ok t → In t d.trips × (t.id ≡ id) × Harmless p f d.trips t)
      → count p d.trips ≤ 1
      → count p after ≤ 1
  Updated-count-le p u (inl e) h le = rw e le
  Updated-count-le p u (inr (t, r, e)) h le = rw e (elim (h t r).2 [
    | inl mono ↦ ground (
      arith,
      count-update_where-le_of_All p (λ x. x.id == id) f d.trips
          (All-of_unique (λ (x : Trip). x.id == id) (λ x. p (f x) ≡ true → p x ≡ true) t d.trips
            (h t r).0 (ground (arith, (h t r).1)) (u id) mono),
    )
    | inr zero ↦ ground (arith, count-update_where-le p (λ x. x.id == id) f d.trips, u id)
  ])

  Updated-Exclusive :
      UniqueIds d.trips
      → Updated id f d checked after
      → ((t : Trip) → checked ≡ ok t → In t d.trips × (t.id ≡ id))
      → ((t : Trip)
          → checked ≡ ok t
          → (school who : ℕ) → Harmless (is_active_of_driver school who) f d.trips t)
      → ((t : Trip)
          → checked ≡ ok t
          → (school van : ℕ) → Harmless (is_active_of_van school van) f d.trips t)
      → Exclusive d.trips
      → Exclusive after
  Updated-Exclusive u changed found drivers vans ex = (
    λ school who.
        Updated-count-le (is_active_of_driver school who) u changed
          (λ t r. let (i, e) = found t r in (i, e, drivers t r school who)) (ex.0 school who),
    λ school van.
        Updated-count-le (is_active_of_van school van) u changed
          (λ t r. let (i, e) = found t r in (i, e, vans t r school van)) (ex.1 school van),
  )

module _ (prisma : Prisma) (user : AuthUser) (id : ℕ) (d : Database) (u : UniqueIds d.trips)
    (ex : Exclusive d.trips) where
  -- If identifiers are unique, and no driver and no van of a school has two trips in progress, this
  -- is so after `startTrip` on the database, whether it succeeds or throws.
  pub start_in_db-Exclusive : (now : ℕ) → Exclusive (start_in_db prisma now user id d).1.trips
  start_in_db-Exclusive now =
      Updated-Exclusive id (started now) d _ _ u (start_in_db-Updated prisma user id d now)
        (λ t r. let s = check_start-Startable prisma user id d t r in (s.present, s.same_id))
        (λ t r school who.
          let s = check_start-Startable prisma user id d t r in
          elim (Bool-cases (is_active_of_driver school who (started now t))) [
            | inr n ↦ inl (λ y. absurd (ground arith))
            | inl y ↦
                let free = s.driver_free in
                let same_school : t.school_id ≡ school = ground arith in
                let same_driver : t.driver_id ≡ who = ground arith in
                inr (rw (sym same_school, sym same_driver) free)
          ])
        (λ t r school van.
          let s = check_start-Startable prisma user id d t r in
          elim (Bool-cases (is_active_of_van school van (started now t))) [
            | inr n ↦ inl (λ y. absurd (ground arith))
            | inl y ↦
                let free = s.van_free in
                let same_school : t.school_id ≡ school = ground arith in
                let same_van : t.van_id ≡ van = ground arith in
                inr (rw (sym same_school, sym same_van) free)
          ])
        ex

  -- The same for `stopTrip` on the database.
  pub stop_in_db-Exclusive : (now : ℕ) → Exclusive (stop_in_db prisma now user id d).1.trips
  stop_in_db-Exclusive now =
      Updated-Exclusive id (stopped now) d _ _ u (stop_in_db-Updated prisma user id d now)
        (λ t r.
          let (found, _) = check_stop-Found prisma user id d t r in (found.present, found.same_id))
        (λ t r school who. inl (λ y. absurd (ground arith)))
        (λ t r school van. inl (λ y. absurd (ground arith))) ex

  pub cancel_in_db-Exclusive : Exclusive (cancel_in_db prisma user id d).1.trips
  cancel_in_db-Exclusive =
      Updated-Exclusive id called_off d _ _ u (cancel_in_db-Updated prisma user id d)
        (λ t r.
          let (found, _) = check_cancel-Found prisma user id d t r in
          (found.present, found.same_id))
        (λ t r school who. inl (λ y. absurd (ground arith)))
        (λ t r school van. inl (λ y. absurd (ground arith))) ex

  pub update_trip-Exclusive :
      (dto : UpdateTripDto)
      → dto.status ≢ some in_progress
      → Exclusive (update_trip prisma user id dto d).1.trips
  update_trip-Exclusive dto other =
      Updated-Exclusive id (patch dto) d _ _ u (update_trip-Updated prisma user id d dto)
        (λ t r.
          let (found, _) = check_update-Found prisma user id d t dto r in
          (found.present, found.same_id))
        (λ t r school who.
          let (_, status) = check_update-Found prisma user id d t dto r in
          inl (λ y. absurd (ground arith)))
        (λ t r school van.
          let (_, status) = check_update-Found prisma user id d t dto r in
          inl (λ y. absurd (ground arith)))
        ex

pub create-Exclusive :
    (prisma : Prisma) (new_id : ℕ) (user : AuthUser) (dto : CreateTripDto) (d : Database)
    → Exclusive d.trips
    → Exclusive (create prisma new_id user dto d).1.trips
create-Exclusive prisma new_id user dto d ex = elim (create-trips prisma new_id user dto d) [
  | inl e ↦ rw e ex
  | inr (school, _, e) ↦
      let t = new_trip new_id school dto in
      rw e (
        (λ s who.
            ground (arith, count-append (is_active_of_driver s who) d.trips (t ∷ []), ex.0 s who)),
        (λ s van.
            ground (arith, count-append (is_active_of_van s van) d.trips (t ∷ []), ex.1 s van)),
      )
]

-- A PATCH request that moves a trip to IN_PROGRESS without naming a driver, and passes the checks of
-- `update`, leaves one more trip in progress for the driver than there were, however many there
-- were: the checks of `startTrip` are not made. Identifiers are unique.
pub update_trip-count_active :
    (prisma : Prisma) (user : AuthUser) (id : ℕ) (d : Database) (dto : UpdateTripDto) (t : Trip)
    → UniqueIds d.trips
    → (check_update prisma user id dto d).0 ≡ ok t
    → dto.status ≡ some in_progress
    → dto.driver_id ≡ none
    → count (is_active_of_driver t.school_id t.driver_id) (update_trip prisma user id dto d).1.trips
      ≡ 1 + count (is_active_of_driver t.school_id t.driver_id) d.trips
update_trip-count_active prisma user id d dto t u h starts same_driver =
    let (found, status) = check_update-Found prisma user id d t dto h in
    let live = check_update-live prisma user id d t dto h in
    let here = found.present in
    let fits : (t.id == id) ≡ true = ground (arith, found.same_id) in
    let p : Trip → Bool = is_active_of_driver t.school_id t.driver_id in
    let q : Trip → Bool = λ x. x.id == id in
    let sum = count-update_where-add p q (patch dto) d.trips (
      All-of_unique q (λ x. (p x ≡ false) × (p (patch dto x) ≡ true)) t d.trips here fits (u id)
        (ground arith, ground arith)) in
    rw (update_trip-changed prisma user id d dto t h (In-any q t d.trips here fits))
      (ground (arith, sum, u id, In-count q t d.trips here fits))
