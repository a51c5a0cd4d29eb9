-- ===== src/Trips/History.antt =====
-- The table of trips before and after a call of each operation of TripsService and
-- TripSessionService.
use school_van_tracking_saa.Prelude.{
  ℕ, ◌≡◌, refl, sym, subst, ◌⊎◌, inl, inr, true, List, In, count, arith, ◌==◌, Prisma, Result, ok,
}
use school_van_tracking_saa.Schema.{Trip, AuthUser, Database}
use school_van_tracking_saa.Trips.Lifecycle.{can_transition}
use school_van_tracking_saa.Trips.Dto.{CreateTripDto, UpdateTripDto}
use school_van_tracking_saa.Trips.Service.{
  patch, called_off, update_trip, create, cancel_in_db, check_status, new_trip,
}
use school_van_tracking_saa.Trips.Session.{started, stopped, start_in_db, stop_in_db}
use school_van_tracking_saa.Trips.Evolution.{
  Evolves, Evolves-refl, Evolves-append, Evolves-update, UniqueIds, UniqueIds-update_where,
  UniqueIds-append,
}
use school_van_tracking_saa.Trips.Checks.{
  check_update-Found, check_cancel-Found, check_start-Startable, check_stop-Found,
}
use school_van_tracking_saa.Trips.Updates.{
  Updated, update_trip-Updated, cancel_in_db-Updated, start_in_db-Updated, stop_in_db-Updated,
  create-trips,
}

-- The two facts that every operation keeps.
abbrev pub Kept : List Trip → List Trip → Type 0
Kept before after = Evolves before after × UniqueIds after

Kept-refl : (ts : List Trip) → UniqueIds ts → Kept ts ts
Kept-refl ts u = (Evolves-refl ts, u)

-- A row that may be changed by `f`: it is there, it has the identifier, and the diagram allows it.
abbrev Movable : ℕ → (Trip → Trip) → List Trip → Trip → Type 0
Movable id f ts t =
    In t ts
    × (t.id ≡ id)
    × (((f t).status ≡ t.status) ⊎ (can_transition t.status (f t).status ≡ true))

Updated-Kept :
    (id : ℕ) (f : Trip → Trip) (d : Database) (checked : Result Trip) (after : List Trip)
    → ((x : Trip) → (f x).id ≡ x.id)
    → ((t : Trip) → checked ≡ ok t → Movable id f d.trips t)
    → UniqueIds d.trips
    → Updated id f d checked after
    → Kept d.trips after
Updated-Kept id f d checked after same movable u (inl e) =
    subst (Kept d.trips) (sym e) (Kept-refl d.trips u)
Updated-Kept id f d checked after same movable u (inr (t, r, e)) =
    let (here, same_id, moved) = movable t r in
    subst (Kept d.trips) (sym e) (
      Evolves-update id f t d.trips u here same_id (same t) moved,
      UniqueIds-update_where (λ x. x.id == id) f d.trips same u,
    )

check_status-move :
    (dto : UpdateTripDto) (t : Trip)
    → check_status dto.status t.status ≡ ok tt
    → ((patch dto t).status ≡ t.status) ⊎ (can_transition t.status (patch dto t).status ≡ true)
check_status-move dto t h = ground arith

module _ (prisma : Prisma) (user : AuthUser) (id : ℕ) (d : Database) (u : UniqueIds d.trips) where
  pub update_trip-Kept :
      (dto : UpdateTripDto) → Kept d.trips (update_trip prisma user id dto d).1.trips
  update_trip-Kept dto =
      Updated-Kept id (patch dto) d _ _ (λ x. refl)
        (λ t r.
          let (found, status) = check_update-Found prisma user id d t dto r in
          (found.present, found.same_id, check_status-move dto t status))
        u (update_trip-Updated prisma user id d dto)

  pub cancel_in_db-Kept : Kept d.trips (cancel_in_db prisma user id d).1.trips
  cancel_in_db-Kept =
      Updated-Kept id called_off d _ _ (λ x. refl)
        (λ t r.
          let (found, status) = check_cancel-Found prisma user id d t r in
          (found.present, found.same_id, ground arith))
        u (cancel_in_db-Updated prisma user id d)

  pub start_in_db-Kept : (now : ℕ) → Kept d.trips (start_in_db prisma now user id d).1.trips
  start_in_db-Kept now =
      Updated-Kept id (started now) d _ _ (λ x. refl)
        (λ t r.
          let s = check_start-Startable prisma user id d t r in
          (s.present, s.same_id, ground arith))
        u (start_in_db-Updated prisma user id d now)

  pub stop_in_db-Kept : (now : ℕ) → Kept d.trips (stop_in_db prisma now user id d).1.trips
  stop_in_db-Kept now =
      Updated-Kept id (stopped now) d _ _ (λ x. refl)
        (λ t r.
          let (found, status) = check_stop-Found prisma user id d t r in
          (found.present, found.same_id, ground arith))
        u (stop_in_db-Updated prisma user id d now)

-- A new row with an identifier that no row has keeps the table well formed.
pub create-Kept :
    (prisma : Prisma) (new_id : ℕ) (user : AuthUser) (dto : CreateTripDto) (d : Database)
    → UniqueIds d.trips
    → count (λ (t : Trip). t.id == new_id) d.trips ≡ 0
    → Kept d.trips (create prisma new_id user dto d).1.trips
create-Kept prisma new_id user dto d u fresh = elim (create-trips prisma new_id user dto d) [
  | inl e ↦ rw e (Kept-refl d.trips u)
  | inr (school, _, e) ↦ rw e (
    Evolves-append d.trips (new_trip new_id school dto) refl,
    UniqueIds-append d.trips (new_trip new_id school dto) u fresh,
  )
]
