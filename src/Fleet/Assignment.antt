-- ===== src/Fleet/Assignment.antt =====
-- services/api/src/fleet/services/fleet-assignment.service.ts
pub mod Capacity
pub mod Drivers
use school_van_tracking_saa.Prelude.{
  ℕ, ◌+◌, ◌/◌, Bool, false, Option, none, some, Prisma, Action, pure, throw_if, or_throw, gets,
  find, update, count_rows, ◌>>=◌, ◌>>◌, not_found, bad_request, conflict, ◌==◌, ltb, not, ◌&&◌,
  is_some, is_value, when, Reason, route_not_found, van_not_found, driver_not_found,
  student_not_found, parent_not_found, driver_has_active_trip, van_has_active_trip, van_inactive,
  route_inactive, over_capacity, capacity_exceeded,
}
use school_van_tracking_saa.Schema.{
  Trip, Route, Van, Driver, Student, Parent, Database, trips_table, routes_table, vans_table,
  drivers_table, students_table, parents_table, in_progress, status_eq,
}
use school_van_tracking_saa.Redis.{Redis, Value}
use school_van_tracking_saa.Fleet.World.{World, on_db, on_cache}
use school_van_tracking_saa.Fleet.Cache.{
  invalidate_route, set_driver_van_assignment, get_driver_van_assignment,
}

-- The `where` conditions `{ id, schoolId, deletedAt: null }`.
abbrev pub is_route : ℕ → ℕ → Route → Bool
is_route school id r = (r.id == id) && (r.school_id == school) && not r.is_deleted

abbrev pub is_van : ℕ → ℕ → Van → Bool
is_van school id v = (v.id == id) && (v.school_id == school) && not v.is_deleted

abbrev pub is_driver : ℕ → ℕ → Driver → Bool
is_driver school id x = (x.id == id) && (x.school_id == school) && not x.is_deleted

abbrev pub is_student : ℕ → ℕ → Student → Bool
is_student school id x = (x.id == id) && (x.school_id == school) && not x.is_deleted

abbrev pub is_parent : ℕ → ℕ → Parent → Bool
is_parent school id x = (x.id == id) && (x.school_id == school) && not x.is_deleted

-- An in-progress trip of the driver, or of the van.
abbrev pub is_active_of_driver : ℕ → ℕ → Trip → Bool
is_active_of_driver school driver t =
    (t.school_id == school)
    && (t.driver_id == driver)
    && status_eq t.status in_progress
    && not t.is_deleted

abbrev pub is_active_of_van : ℕ → ℕ → Trip → Bool
is_active_of_van school van t =
    (t.school_id == school)
    && (t.van_id == van)
    && status_eq t.status in_progress
    && not t.is_deleted

-- What the extension of the Prisma client makes of `findUnique({ where: { id } })`.
abbrev pub is_present : ℕ → Van → Bool
is_present id v = (v.id == id) && not v.is_deleted

-- A student who rides the route.
abbrev pub rides : ℕ → ℕ → Student → Bool
rides school route x = (x.school_id == school) && is_value x.route_id route && not x.is_deleted

-- `assertSchoolEntity`, on the row that the finder returned
abbrev pub assert_school_entity :
    {A : Type 0} → Action Database (Option A) → Reason → Action Database A
assert_school_entity finder label = do row ← finder; or_throw row (not_found label)

module _ (prisma : Prisma) (school : ℕ) where
  abbrev pub assert_route : ℕ → Action Database Route
  assert_route route =
      assert_school_entity (find routes_table prisma (is_route school route)) route_not_found

  abbrev pub assert_van : ℕ → Action Database Van
  assert_van van = assert_school_entity (find vans_table prisma (is_van school van)) van_not_found

  abbrev pub assert_driver : ℕ → Action Database Driver
  assert_driver driver =
      assert_school_entity (find drivers_table prisma (is_driver school driver)) driver_not_found

  abbrev pub assert_student : ℕ → Action Database Student
  assert_student student =
      assert_school_entity (find students_table prisma (is_student school student))
        student_not_found

  abbrev pub assert_parent : ℕ → Action Database Parent
  assert_parent parent =
      assert_school_entity (find parents_table prisma (is_parent school parent)) parent_not_found

  abbrev pub assert_no_active_trip_for_driver : ℕ → Action Database (Unit {0})
  assert_no_active_trip_for_driver driver = do
    active ← find trips_table prisma (is_active_of_driver school driver)
    throw_if (is_some active) (conflict driver_has_active_trip)

  abbrev pub assert_no_active_trip_for_van : ℕ → Action Database (Unit {0})
  assert_no_active_trip_for_van van = do
    active ← find trips_table prisma (is_active_of_van school van)
    throw_if (is_some active) (conflict van_has_active_trip)

  -- The part of `assignVanToRoute` before the cache is invalidated.
  abbrev pub assign_van : ℕ → ℕ → Action Database (Unit {0})
  assign_van route van_id = do
    route_row ← assert_route route
    van ← assert_van van_id
    throw_if (not van.is_active) (bad_request van_inactive)
    students ← count_rows students_table (rides school route)
    throw_if (ltb van.capacity students) (bad_request over_capacity)
    update routes_table (λ r. r.id == route) (λ r. record r { van_id = some van_id })

  -- `if (van && onRoute + 1 > van.capacity) throw`
  abbrev pub check_seat : Option Van → ℕ → Action Database (Unit {0})
  check_seat none on_route = pure tt
  check_seat (some van) on_route =
      throw_if (ltb van.capacity (on_route + 1)) (bad_request capacity_exceeded)

  abbrev pub check_van_of_route : ℕ → ℕ → Option ℕ → Action Database (Unit {0})
  check_van_of_route route_id student none = pure tt
  check_van_of_route route_id student (some van_id) = do
    van ← find vans_table prisma (is_present van_id)
    on_route ← count_rows students_table (λ x. rides school route_id x && not (x.id == student))
    check_seat van on_route

  abbrev pub check_route : ℕ → Option ℕ → Action Database (Unit {0})
  check_route student none = pure tt
  check_route student (some route_id) = do
    route ← assert_route route_id
    throw_if (not route.is_active) (bad_request route_inactive)
    check_van_of_route route_id student route.van_id

  unfoldable pub assign_student_to_route : ℕ → Option ℕ → Action Database (Unit {0})
  assign_student_to_route student_id route_id = do
    student ← assert_student student_id
    check_route student_id route_id
    update students_table (λ x. x.id == student.id) (λ x. record x { route_id = route_id })

  unfoldable pub assign_parent_to_student : ℕ → ℕ → Action Database (Unit {0})
  assign_parent_to_student student_id parent_id = do
    student ← assert_student student_id
    parent ← assert_parent parent_id
    update students_table (λ x. x.id == student_id) (λ x. record x { parent_id = parent_id })

-- `existingVanDriver && existingVanDriver !== vanId`
abbrev is_other : Option ℕ → ℕ → Bool
is_other none van = false
is_other (some existing) van = not (existing == van)

module _ (prisma : Prisma) {redis : Redis Value} (now school : ℕ) where
  unfoldable pub assign_van_to_route : ℕ → ℕ → Action (World redis) (Unit {0})
  assign_van_to_route route van = do
    on_db (assign_van prisma school route van)
    invalidate_route school route

  unfoldable pub assign_driver_to_van : ℕ → ℕ → Action (World redis) (Unit {0})
  unfolding get_driver_van_assignment set_driver_van_assignment
  assign_driver_to_van driver van_id = do
    driver_row ← on_db (assert_driver prisma school driver)
    van ← on_db (assert_van prisma school van_id)
    on_db (throw_if (not van.is_active) (bad_request van_inactive))
    existing ← gets (λ w. get_driver_van_assignment redis (now / 1000) school driver w.cache)
    when (is_other existing van_id) (on_db (assert_no_active_trip_for_driver prisma school driver))
    on_cache (set_driver_van_assignment redis (now / 1000) school driver van_id)
