-- ===== src/Tests/FleetRuns.antt =====
-- Runs of the guards, the access checks and the assignments on the small school.
use school_van_tracking_saa.Prelude.{
  ◌≡◌, ◌↔◌, refl, true, false, none, some, In, count, arith, ok, err, forbidden, cross_tenant,
}
use school_van_tracking_saa.Schema.{Trip, Route}
use school_van_tracking_saa.Tenant.Guard.{
  HandlerMeta, Request, can_activate, MayPass, can_activate_iff,
}
use school_van_tracking_saa.Tenant.Access.{assert_trip_access, MayJoin, assert_trip_access-MayJoin}
use school_van_tracking_saa.Fleet.World.{World}
use school_van_tracking_saa.Fleet.Cache.{
  get_driver_van_assignment, get_van_driver_assignment, set_driver_van_assignment,
}
use school_van_tracking_saa.Fleet.Assignment.{
  is_route, rides, assign_student_to_route, assign_driver_to_van,
}
use school_van_tracking_saa.Fleet.Assignment.Capacity.{Seated, assign_student_to_route-Seated}
use school_van_tracking_saa.Fleet.Assignment.Drivers.{
  assign_driver_to_van-get, assign_driver_to_van-stale,
}
use school_van_tracking_saa.Tests.Clients.{
  first_row, key_space, RedisKey-discrete, pick, ℕ_discrete,
}
use school_van_tracking_saa.Tests.School.{admin, parent_user, morning, school_with, world_with}

abbrev scoped : HandlerMeta
scoped = record { is_public = false; tenant_scoped = true }

-- `GET /students/:id` for student 6, by the admin of school 1
abbrev get_student : Request
get_student = record {
  user = some admin;
  params_id = some 6;
  params_school_id = none;
  query_school_id = none;
  body_school_id = none;
  header_school_id = none;
  tenant_school_id = none;
}

can_activate_iff_example :
    ((can_activate scoped get_student).0 ≡ ok true) ↔ MayPass scoped get_student
can_activate_iff_example = can_activate_iff scoped get_student

-- Student 6 is not school 1, so the admin of school 1 does not see him.
student_refused : (can_activate scoped get_student).0 ≡ err (forbidden cross_tenant)
unfolding can_activate
student_refused = refl

-- An empty `x-school-id` passes.
empty_passes :
    (can_activate scoped (record get_student { params_id = none; header_school_id = some 0 })).0
    ≡ ok true
unfolding can_activate
empty_passes = refl

assert_trip_access-MayJoin_example :
    (t : Trip) × In t morning
    × (t.id ≡ 10)
    × (t.is_deleted ≡ false)
    × (t.school_id ≡ 1)
    × MayJoin (school_with morning) parent_user t parent_user.role
unfolding assert_trip_access
assert_trip_access-MayJoin_example =
    assert_trip_access-MayJoin first_row (school_with morning) parent_user 10 refl

assign_student_to_route-Seated_example :
    (r : Route) × In r (school_with morning).routes
    × (is_route 1 2 r ≡ true)
    × (r.is_active ≡ true)
    × Seated first_row
        (school_with morning).vans
        (count
          (rides 1 2)
          (assign_student_to_route first_row 1 6 (some 2) (school_with morning)).1.students)
        r.van_id
unfolding assign_student_to_route
assign_student_to_route-Seated_example =
    assign_student_to_route-Seated first_row 1 6 2 (school_with morning) (omega arith) refl

abbrev moved : World key_space
moved = (assign_driver_to_van first_row {redis = key_space} 5000 1 5 3 (world_with morning)).1

assign_driver_to_van-get_example :
    (get_driver_van_assignment key_space 3000 1 5 moved.cache ≡ some 3)
    × (get_van_driver_assignment key_space 3000 1 3 moved.cache ≡ some 5)
unfolding assign_driver_to_van get_driver_van_assignment set_driver_van_assignment
assign_driver_to_van-get_example =
    assign_driver_to_van-get first_row {redis = key_space} 5000 1 5 3 (world_with morning) 3000
      (omega arith) refl

-- The driver moves on from van 3 to van 4.
assign_driver_to_van-stale_example :
    get_van_driver_assignment key_space 10 1 3
      (assign_driver_to_van first_row {redis = key_space} 6000 1 5 4 moved).1.cache
    ≡ some 5
unfolding assign_driver_to_van get_driver_van_assignment set_driver_van_assignment
    get_van_driver_assignment RedisKey-discrete pick ℕ_discrete
assign_driver_to_van-stale_example =
    assign_driver_to_van-stale first_row {redis = key_space} 6000 1 5 4 moved 3 10
      (λ e. omega arith) refl refl
