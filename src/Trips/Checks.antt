-- ===== src/Trips/Checks.antt =====
-- What the checks of each operation on trips establish. They only read.
use school_van_tracking_saa.Prelude.{
  ℕ, false, ◌≡◌, inl, inr, some, none, In, arith, Prisma, Option-cases, Result-cases, ok, ReadOnly,
  count,
}
use school_van_tracking_saa.Schema.{Trip, AuthUser, Database, scheduled, in_progress, driver}
use school_van_tracking_saa.Tenant.Context.{resolve_school_id}
use school_van_tracking_saa.Fleet.Assignment.{is_active_of_driver, is_active_of_van}
use school_van_tracking_saa.Trips.Dto.{CreateTripDto, UpdateTripDto}
use school_van_tracking_saa.Trips.Service.{
  is_trip_of, check_status, get_by_id, assert_references, check_create, check_update, check_cancel,
}
use school_van_tracking_saa.Trips.Session.{
  is_profile_of, is_own_trip, find_own_trip, assert_free, check_start, check_stop,
}

module _ (prisma : Prisma) (user : AuthUser) where
  pub get_by_id-ReadOnly : (id : ℕ) → ReadOnly (get_by_id prisma user id)
  unfolding get_by_id
  get_by_id-ReadOnly id d = ground arith

  pub find_own_trip-ReadOnly : (id : ℕ) → ReadOnly (find_own_trip prisma user id)
  unfolding find_own_trip
  find_own_trip-ReadOnly id d = ground arith

  pub assert_free-ReadOnly : (t : Trip) → ReadOnly (assert_free prisma t)
  unfolding assert_free
  assert_free-ReadOnly t d = ground arith

  pub assert_references-ReadOnly :
      (school : ℕ) (dto : UpdateTripDto) → ReadOnly (assert_references prisma school dto)
  unfolding assert_references
  assert_references-ReadOnly school dto d = ground arith

  pub check_create-ReadOnly : (dto : CreateTripDto) → ReadOnly (check_create prisma user dto)
  unfolding check_create
  check_create-ReadOnly dto d = ground arith

  pub check_create-school :
      (dto : CreateTripDto) (d : Database) (school : ℕ)
      → (check_create prisma user dto d).0 ≡ ok school
      → resolve_school_id user none ≡ ok school
  unfolding check_create
  check_create-school dto d school h = ground arith

  pub check_update-ReadOnly :
      (id : ℕ) (dto : UpdateTripDto) → ReadOnly (check_update prisma user id dto)
  unfolding check_update
  check_update-ReadOnly id dto d =
      grind (arith, get_by_id-ReadOnly id d, assert_references-ReadOnly)

  pub check_cancel-ReadOnly : (id : ℕ) → ReadOnly (check_cancel prisma user id)
  unfolding check_cancel
  check_cancel-ReadOnly id d = ground (arith, get_by_id-ReadOnly id d)

  pub check_start-ReadOnly : (id : ℕ) → ReadOnly (check_start prisma user id)
  unfolding check_start
  check_start-ReadOnly id d = grind (arith, find_own_trip-ReadOnly id d, assert_free-ReadOnly)

  pub check_stop-ReadOnly : (id : ℕ) → ReadOnly (check_stop prisma user id)
  unfolding check_stop
  check_stop-ReadOnly id d = ground (arith, find_own_trip-ReadOnly id d)

module _ (prisma : Prisma) (user : AuthUser) (id : ℕ) (d : Database) (t : Trip) where
  -- A trip that was found by its identifier.
  pub record Found : Type 0 where
    pub present : In t d.trips
    pub same_id : t.id ≡ id

  pub get_by_id-Found : (get_by_id prisma user id d).0 ≡ ok t → Found
  unfolding get_by_id
  get_by_id-Found h = elim (Result-cases (resolve_school_id user none)) [
    | inr (e, r) ↦ absurd (ground arith)
    | inl (school, r) ↦
        let found : prisma.find_first (is_trip_of school id) d.trips ≡ some t = ground arith in
        let (fits, here) = prisma.find_first_sound (is_trip_of school id) d.trips found in
        record { present = here; same_id = ground arith }
  ]

  get_by_id-live : (get_by_id prisma user id d).0 ≡ ok t → t.is_deleted ≡ false
  unfolding get_by_id
  get_by_id-live h = elim (Result-cases (resolve_school_id user none)) [
    | inr (e, r) ↦ absurd (ground arith)
    | inl (school, r) ↦
        let found : prisma.find_first (is_trip_of school id) d.trips ≡ some t = ground arith in
        let (fits, _) = prisma.find_first_sound (is_trip_of school id) d.trips found in ground arith
  ]

  find_own_trip-Found :
      (find_own_trip prisma user id d).0 ≡ ok t → Found × (user.school_id ≡ some t.school_id)
  unfolding find_own_trip
  find_own_trip-Found h = elim (Option-cases (prisma.find_first (is_profile_of user) d.drivers)) [
    | inl n ↦ absurd (ground arith)
    | inr (x, profile) ↦
        let found : prisma.find_first (is_own_trip user x.id id) d.trips ≡ some t = ground arith in
        let (fits, here) = prisma.find_first_sound (is_own_trip user x.id id) d.trips found in
        (record { present = here; same_id = ground arith }, ground arith)
  ]

  assert_free-count :
      (assert_free prisma t d).0 ≡ ok tt
      → (count (is_active_of_driver t.school_id t.driver_id) d.trips ≡ 0)
        × (count (is_active_of_van t.school_id t.van_id) d.trips ≡ 0)
  unfolding assert_free
  assert_free-count h = (
    prisma.find_first_complete _ d.trips (ground arith),
    prisma.find_first_complete _ d.trips (ground arith),
  )

  update_steps :
      (dto : UpdateTripDto)
      → (check_update prisma user id dto d).0 ≡ ok t
      → ((get_by_id prisma user id d).0 ≡ ok t) × (check_status dto.status t.status ≡ ok tt)
  unfolding check_update
  update_steps dto h = grind (arith, get_by_id-ReadOnly prisma user id d)

  pub check_update-Found :
      (dto : UpdateTripDto)
      → (check_update prisma user id dto d).0 ≡ ok t
      → Found × (check_status dto.status t.status ≡ ok tt)
  check_update-Found dto h =
      let (got, checked) = update_steps dto h in (get_by_id-Found got, checked)

  pub check_update-live :
      (dto : UpdateTripDto) → (check_update prisma user id dto d).0 ≡ ok t → t.is_deleted ≡ false
  check_update-live dto h = get_by_id-live (update_steps dto h).0

  pub check_cancel-Found : (check_cancel prisma user id d).0 ≡ ok t → Found × (t.status ≡ scheduled)
  unfolding check_cancel
  check_cancel-Found h = (get_by_id-Found (ground arith), ground arith)

  -- What `startTrip` knows of the trip that it starts.
  pub record Startable : Type 0 where
    pub present : In t d.trips
    pub same_id : t.id ≡ id
    pub by_driver : user.role ≡ driver
    pub own_school : user.school_id ≡ some t.school_id
    pub was_scheduled : t.status ≡ scheduled
    pub driver_free : count (is_active_of_driver t.school_id t.driver_id) d.trips ≡ 0
    pub van_free : count (is_active_of_van t.school_id t.van_id) d.trips ≡ 0

  start_steps :
      (check_start prisma user id d).0 ≡ ok t
      → ((find_own_trip prisma user id d).0 ≡ ok t)
        × ((assert_free prisma t d).0 ≡ ok tt)
        × (user.role ≡ driver)
        × (t.status ≡ scheduled)
  unfolding check_start
  start_steps h = grind (arith, find_own_trip-ReadOnly prisma user id d)

  pub check_start-Startable : (check_start prisma user id d).0 ≡ ok t → Startable
  check_start-Startable h =
      let (own, free, role, status) = start_steps h in
      let (found, school) = find_own_trip-Found own in
      let (driver_free, van_free) = assert_free-count free in
      record {
        present = found.present;
        same_id = found.same_id;
        by_driver = role;
        own_school = school;
        was_scheduled = status;
        driver_free = driver_free;
        van_free = van_free;
      }

  pub check_stop-Found : (check_stop prisma user id d).0 ≡ ok t → Found × (t.status ≡ in_progress)
  unfolding check_stop
  check_stop-Found h = ((find_own_trip-Found (ground arith)).0, ground arith)
