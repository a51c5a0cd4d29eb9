-- ===== src/Trips/Updates.antt =====
-- What each operation on trips leaves in the table: the rows of before, or the same with one row
-- changed, or with one row more.
use school_van_tracking_saa.Prelude.{
  ℕ, true, none, err, Exception, ◌≡◌, refl, ◌⊎◌, inl, inr, List, [], ◌∷◌, ◌++◌, update_where, arith,
  any, ◌==◌, ap, ◌∙◌, Prisma, Result, Result-cases, ok, Action, ReadOnly, update, ◌>>=◌, ◌>>◌,
  bind-ok, bind-err, Bool-cases, pure,
}
use school_van_tracking_saa.Schema.{Trip, AuthUser, Database, trips_table}
use school_van_tracking_saa.Tenant.Context.{resolve_school_id}
use school_van_tracking_saa.Trips.Dto.{CreateTripDto, UpdateTripDto}
use school_van_tracking_saa.Trips.Service.{
  patch, called_off, update_trip, create, cancel_in_db, check_update, check_cancel, get_by_id,
  new_trip, check_create,
}
use school_van_tracking_saa.Trips.Session.{
  started, stopped, start_in_db, stop_in_db, check_start, check_stop,
}
use school_van_tracking_saa.Trips.Checks.{
  get_by_id-ReadOnly, check_update-ReadOnly, check_cancel-ReadOnly, check_start-ReadOnly,
  check_stop-ReadOnly, check_create-ReadOnly, check_create-school,
}

-- The table after a guarded update: unchanged, or changed by `f` after the check found a trip.
abbrev pub Updated : ℕ → (Trip → Trip) → Database → Result Trip → List Trip → Type 0
Updated id f d checked after =
    (after ≡ d.trips)
    ⊎ ((t : Trip) × (checked ≡ ok t) × (after ≡ update_where (λ x. x.id == id) f d.trips))

-- Checks that only read, an update of one row, and a part that leaves the trips alone.
module _ {B : Type 0} (check : Action Database Trip) (id : ℕ) (f : Trip → Trip)
    (tail : Trip → Action Database B) (d : Database) where
  guarded : Action Database B
  guarded = check >>= λ t. update trips_table (λ x. x.id == id) f >> tail t

  abbrev Quiet : Type 0
  Quiet = (t : Trip) (e : Database) → (tail t e).1.trips ≡ e.trips

  -- A check that passes is followed by the update.
  passed :
      ReadOnly check
      → (t : Trip) → (check d).0 ≡ ok t
      → guarded d ≡ (update trips_table (λ x. x.id == id) f >> tail t) d
  unfolding guarded
  passed reads t r =
      bind-ok check (λ t. update trips_table (λ x. x.id == id) f >> tail t) d t r
      ∙ ap (update trips_table (λ x. x.id == id) f >> tail t) (reads d)

  changed :
      ReadOnly check
      → Quiet
      → (t : Trip) → (check d).0 ≡ ok t
      → any (λ (x : Trip). x.id == id) d.trips ≡ true
      → (guarded d).1.trips ≡ update_where (λ x. x.id == id) f d.trips
  changed reads quiet t r present =
      let after : Database = record d { trips = update_where (λ x. x.id == id) f d.trips } in
      let p : (update trips_table (λ x. x.id == id) f >> tail t) d ≡ tail t after = ground arith in
      ap (λ (x : Result B × Database). x.1.trips) (passed reads t r ∙ p) ∙ quiet t after

  guarded-Updated : ReadOnly check → Quiet → Updated id f d (check d).0 (guarded d).1.trips
  unfolding guarded
  guarded-Updated reads quiet = elim (Result-cases (check d).0) [
    | inr (e, r) ↦
        let p = bind-err check (λ t. update trips_table (λ x. x.id == id) f >> tail t) d e r in
        inl
          (ap (λ (x : Result B × Database). x.1.trips) p ∙ ap (λ (x : Database). x.trips) (reads d))
    | inl (t, r) ↦ elim (Bool-cases (any (λ (x : Trip). x.id == id) d.trips)) [
      | inl present ↦ inr (t, r, changed reads quiet t r present)
      | inr absent ↦
          let p : ((update trips_table (λ x. x.id == id) f >> tail t) d).1.trips ≡ d.trips =
            ground arith in
          inl (ap (λ (x : Result B × Database). x.1.trips) (passed reads t r) ∙ p)
    ]
  ]

module _ (prisma : Prisma) (user : AuthUser) (id : ℕ) (d : Database) where
  -- A PATCH request whose checks pass changes the row.
  pub update_trip-changed :
      (dto : UpdateTripDto) (t : Trip)
      → (check_update prisma user id dto d).0 ≡ ok t
      → any (λ (x : Trip). x.id == id) d.trips ≡ true
      → (update_trip prisma user id dto d).1.trips
        ≡ update_where (λ x. x.id == id) (patch dto) d.trips
  unfolding update_trip guarded
  update_trip-changed dto =
      changed (check_update prisma user id dto) id (patch dto) (λ _. get_by_id prisma user id) d
        (check_update-ReadOnly prisma user id dto)
        (λ t e. ap (λ (x : Database). x.trips) (get_by_id-ReadOnly prisma user id e))

  pub update_trip-Updated :
      (dto : UpdateTripDto)
      → Updated id
          (patch dto)
          d
          (check_update prisma user id dto d).0
          (update_trip prisma user id dto d).1.trips
  unfolding update_trip guarded
  update_trip-Updated dto =
      guarded-Updated (check_update prisma user id dto) id (patch dto)
        (λ _. get_by_id prisma user id) d (check_update-ReadOnly prisma user id dto)
        (λ t e. ap (λ (x : Database). x.trips) (get_by_id-ReadOnly prisma user id e))

  pub cancel_in_db-Updated :
      Updated id called_off d
        (check_cancel prisma user id d).0
        (cancel_in_db prisma user id d).1.trips
  unfolding cancel_in_db guarded
  cancel_in_db-Updated =
      guarded-Updated (check_cancel prisma user id) id called_off (λ t. pure t) d
        (check_cancel-ReadOnly prisma user id) (λ t e. refl)

  pub start_in_db-Updated :
      (now : ℕ)
      → Updated id
          (started now)
          d
          (check_start prisma user id d).0
          (start_in_db prisma now user id d).1.trips
  unfolding start_in_db guarded
  start_in_db-Updated now =
      guarded-Updated (check_start prisma user id) id (started now) (λ t. pure t) d
        (check_start-ReadOnly prisma user id) (λ t e. refl)

  pub stop_in_db-Updated :
      (now : ℕ)
      → Updated id
          (stopped now)
          d
          (check_stop prisma user id d).0
          (stop_in_db prisma now user id d).1.trips
  unfolding stop_in_db guarded
  stop_in_db-Updated now =
      guarded-Updated (check_stop prisma user id) id (stopped now) (λ t. pure t) d
        (check_stop-ReadOnly prisma user id) (λ t e. refl)

module _ (prisma : Prisma) (new_id : ℕ) (user : AuthUser) (dto : CreateTripDto) (d : Database) where
  -- What `create` leaves after its checks passed, and after they threw.
  create-passed :
      (school : ℕ)
      → (check_create prisma user dto d).0 ≡ ok school
      → ((create prisma new_id user dto d).1.trips ≡ d.trips ++ new_trip new_id school dto ∷ [])
        × ((create prisma new_id user dto d).1.routes ≡ d.routes)
  unfolding create
  create-passed school r =
      rw
        (
          bind-ok (check_create prisma user dto) _ d school r,
          check_create-ReadOnly prisma user dto d,
        )
        (
          ap (λ (x : Database). x.trips) (get_by_id-ReadOnly prisma user new_id _),
          ap (λ (x : Database). x.routes) (get_by_id-ReadOnly prisma user new_id _),
        )

  create-refused :
      (e : Exception)
      → (check_create prisma user dto d).0 ≡ err e
      → create prisma new_id user dto d ≡ (err e, d)
  unfolding create
  create-refused e r =
      rw (bind-err (check_create prisma user dto) _ d e r, check_create-ReadOnly prisma user dto d)
        refl

  -- The table after `create`: the old rows, and the new one if all checks passed.
  pub create-trips :
      ((create prisma new_id user dto d).1.trips ≡ d.trips)
      ⊎ ((school : ℕ) × ((check_create prisma user dto d).0 ≡ ok school)
          × ((create prisma new_id user dto d).1.trips
              ≡ d.trips ++ new_trip new_id school dto ∷ []))
  create-trips = elim (Result-cases (check_create prisma user dto d).0) [
    | inr (e, r) ↦ inl (rw (create-refused e r) refl)
    | inl (school, r) ↦ inr (school, r, (create-passed school r).0)
  ]

  pub create-routes : (create prisma new_id user dto d).1.routes ≡ d.routes
  create-routes = elim (Result-cases (check_create prisma user dto d).0) [
    | inr (e, r) ↦ rw (create-refused e r) refl
    | inl (school, r) ↦ (create-passed school r).1
  ]

  -- If `create` succeeds, the new row is in the table, with the school of the user.
  pub create-created :
      (t : Trip)
      → (create prisma new_id user dto d).0 ≡ ok t
      → (school : ℕ) × (resolve_school_id user none ≡ ok school)
        × ((create prisma new_id user dto d).1.trips ≡ d.trips ++ new_trip new_id school dto ∷ [])
  create-created t h = elim (Result-cases (check_create prisma user dto d).0) [
    | inr (e, r) ↦
        absurd (ground (arith, ap (λ (x : Result Trip × Database). x.0) (create-refused e r)))
    | inl (school, r) ↦
        (school, check_create-school prisma user dto d school r, (create-passed school r).0)
  ]
