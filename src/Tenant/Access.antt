-- ===== src/Tenant/Access.antt =====
-- services/api/src/common/tenant/ws-tenant-access.service.ts
use school_van_tracking_saa.Prelude.{
  ℕ, ◌≡◌, refl, inl, inr, Bool, true, false, some, Prisma, In, Result, ok, err, Action, pure,
  throw_if, or_throw, find, ◌>>=◌, ◌>>◌, forbidden, arith, ◌==◌, not, ◌&&◌, any, is_value, List,
  Option-cases, if◌then◌else◌, when, trip_not_found, cross_tenant, driver_not_assigned,
  parent_profile_not_found, no_student_on_trip,
}
use school_van_tracking_saa.Schema.{
  AuthUser, RoleCode, super_admin, school_admin, driver, parent, role_eq, Trip, TripStudent, Driver,
  Student, Parent, Database, trips_table, drivers_table, parents_table, trip_students_table,
}

-- `student: { parentId }` on a row of `trip_students`: the row's student has this parent.
abbrev has_parent : ℕ → List Student → TripStudent → Bool
has_parent parent_id students ts =
    any (λ s. (s.id == ts.student_id) && (s.parent_id == parent_id)) students

-- What `findFirst({ where: { id: tripId, deletedAt: null } })` asks of a row.
abbrev is_trip : ℕ → Trip → Bool
is_trip trip_id t = (t.id == trip_id) && not t.is_deleted

module _ (prisma : Prisma) where
  abbrev assert_driver_of : AuthUser → Trip → Action Database (Unit {0})
  assert_driver_of user trip = do
    found ←
        find drivers_table prisma
          (λ d. (d.user_id == user.id) && (d.school_id == trip.school_id) && not d.is_deleted)
    profile ← or_throw found (forbidden driver_not_assigned)
    throw_if (not (profile.id == trip.driver_id)) (forbidden driver_not_assigned)

  abbrev assert_parent_of : AuthUser → Trip → ℕ → Action Database (Unit {0})
  assert_parent_of user trip trip_id d =
      (do
        found ←
            find parents_table prisma
              (λ p. (p.user_id == user.id) && (p.school_id == trip.school_id) && not p.is_deleted)
        profile ← or_throw found (forbidden parent_profile_not_found)
        linked ←
            find trip_students_table prisma
              (λ ts. (ts.trip_id == trip_id) && has_parent profile.id d.students ts)
        linked_row ← or_throw linked (forbidden no_student_on_trip)
        pure tt)
        d

  abbrev assert_member_access : AuthUser → ℕ → Trip → Action Database ℕ
  assert_member_access user trip_id trip = do
    throw_if (not (is_value user.school_id trip.school_id)) (forbidden cross_tenant)
    when (role_eq user.role driver) (assert_driver_of user trip)
    when (role_eq user.role parent) (assert_parent_of user trip trip_id)
    pure trip.school_id

  abbrev assert_access_to : AuthUser → ℕ → Trip → Action Database ℕ
  assert_access_to user trip_id trip =
      if role_eq user.role super_admin
      then pure trip.school_id
      else assert_member_access user trip_id trip

  unfoldable pub assert_trip_access : AuthUser → ℕ → Action Database ℕ
  assert_trip_access user trip_id = do
    found ← find trips_table prisma (is_trip trip_id)
    trip ← or_throw found (forbidden trip_not_found)
    assert_access_to user trip_id trip

unfoldable pub assert_school_room_access : AuthUser → ℕ → Result (Unit {0})
assert_school_room_access user school_id =
    if role_eq user.role super_admin
    then ok tt
    else if is_value user.school_id school_id
    then ok tt
    else err (forbidden cross_tenant)

-- Who may follow a trip, by role, independently of the order of the checks.
abbrev pub MayJoin : Database → AuthUser → Trip → RoleCode → Type 0
MayJoin d user t super_admin = Unit
MayJoin d user t school_admin = user.school_id ≡ some t.school_id
MayJoin d user t driver =
    (user.school_id ≡ some t.school_id)
    × ((x : Driver) × In x d.drivers
        × (x.user_id ≡ user.id)
        × (x.school_id ≡ t.school_id)
        × (x.is_deleted ≡ false)
        × (x.id ≡ t.driver_id))
MayJoin d user t parent =
    (user.school_id ≡ some t.school_id)
    × ((x : Parent) × (ts : TripStudent) × In x d.parents
        × (x.user_id ≡ user.id)
        × (x.school_id ≡ t.school_id)
        × (x.is_deleted ≡ false)
        × In ts d.trip_students
        × (ts.trip_id ≡ t.id)
        × (has_parent x.id d.students ts ≡ true))

module _ (prisma : Prisma) (d : Database) (user : AuthUser) (trip_id : ℕ) where
  -- What the lookups of the source ask of the rows of `drivers`, `parents` and `trip_students`.
  abbrev is_driver_of : Trip → Driver → Bool
  is_driver_of t x = (x.user_id == user.id) && (x.school_id == t.school_id) && not x.is_deleted

  abbrev is_parent_of : Trip → Parent → Bool
  is_parent_of t x = (x.user_id == user.id) && (x.school_id == t.school_id) && not x.is_deleted

  abbrev links : ℕ → TripStudent → Bool
  links parent_id ts = (ts.trip_id == trip_id) && has_parent parent_id d.students ts

  parent_access :
      (t : Trip) {school : ℕ}
      → t.id ≡ trip_id
      → user.role ≡ parent
      → (assert_access_to prisma user trip_id t d).0 ≡ ok school
      → (x : Parent) × (ts : TripStudent) × In x d.parents
        × (x.user_id ≡ user.id)
        × (x.school_id ≡ t.school_id)
        × (x.is_deleted ≡ false)
        × In ts d.trip_students
        × (ts.trip_id ≡ t.id)
        × (has_parent x.id d.students ts ≡ true)
  parent_access t e r h = elim (Option-cases (prisma.find_first (is_parent_of t) d.parents)) [
    | inl n ↦ absurd (ground arith)
    | inr (x, found) ↦ elim (Option-cases (prisma.find_first (links x.id) d.trip_students)) [
      | inl n ↦ absurd (ground arith)
      | inr (ts, linked) ↦
          let (fits, here) = prisma.find_first_sound (is_parent_of t) d.parents found in
          let (ts_fits, ts_here) = prisma.find_first_sound (links x.id) d.trip_students linked in
          (
            x,
            ts,
            here,
            ground arith,
            ground arith,
            ground arith,
            ts_here,
            ground arith,
            ground arith,
          )
    ]
  ]

  driver_access :
      (t : Trip) {school : ℕ}
      → user.role ≡ driver
      → (assert_access_to prisma user trip_id t d).0 ≡ ok school
      → (x : Driver) × In x d.drivers
        × (x.user_id ≡ user.id)
        × (x.school_id ≡ t.school_id)
        × (x.is_deleted ≡ false)
        × (x.id ≡ t.driver_id)
  driver_access t r h = elim (Option-cases (prisma.find_first (is_driver_of t) d.drivers)) [
    | inl n ↦ absurd (ground arith)
    | inr (x, found) ↦
        let (fits, here) = prisma.find_first_sound (is_driver_of t) d.drivers found in
        (x, here, ground arith, ground arith, ground arith, ground arith)
  ]

  access-MayJoin :
      (t : Trip) (r : RoleCode) {school : ℕ}
      → t.id ≡ trip_id
      → user.role ≡ r
      → (assert_access_to prisma user trip_id t d).0 ≡ ok school
      → (t.school_id ≡ school) × MayJoin d user t r
  access-MayJoin t super_admin e r h = (ground arith, tt)
  access-MayJoin t school_admin e r h = (ground arith, ground arith)
  access-MayJoin t driver e r h = (ground arith, (ground arith, driver_access t r h))
  access-MayJoin t parent e r h = (ground arith, (ground arith, parent_access t e r h))

  -- A user who is let into a trip's rooms gets the school of a trip that exists and is not deleted,
  -- and may join it by his role: a school admin of that school, the driver who is assigned to the
  -- trip, or a parent of a student on it. (A super admin may join any trip.)
  pub assert_trip_access-MayJoin :
      {school : ℕ}
      → (assert_trip_access prisma user trip_id d).0 ≡ ok school
      → (t : Trip) × In t d.trips
        × (t.id ≡ trip_id)
        × (t.is_deleted ≡ false)
        × (t.school_id ≡ school)
        × MayJoin d user t user.role
  unfolding assert_trip_access
  assert_trip_access-MayJoin {school} h =
      elim (Option-cases (prisma.find_first (is_trip trip_id) d.trips)) [
        | inl e ↦ absurd (ground arith)
        | inr (t, e) ↦
            let (fits, here) = prisma.find_first_sound (is_trip trip_id) d.trips e in
            let same : t.id ≡ trip_id = ground arith in
            let let_in : (assert_access_to prisma user trip_id t d).0 ≡ ok school = ground arith in
            let (of_school, may) = access-MayJoin t user.role same refl let_in in
            (t, here, same, ground arith, of_school, may)
      ]
