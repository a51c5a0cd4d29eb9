-- ===== src/Tests/StudentRuns.antt =====
-- Runs of the service of students on the small school.
use school_van_tracking_saa.Prelude.{
  ℕ, ◌+◌, ◌≤◌, ◌≡◌, refl, true, false, none, some, [], ◌∷◌, ok, not_found, route_not_found, length,
}
use school_van_tracking_saa.Schema.{pickup, Route}
use school_van_tracking_saa.Tenant.Context.{resolve_school_id}
use school_van_tracking_saa.Fleet.Validation.{assert_valid_coordinates}
use school_van_tracking_saa.Fleet.Assignment.{assign_student_to_route}
use school_van_tracking_saa.Subscription.Status.{status_of}
use school_van_tracking_saa.Subscription.Store.{Platform}
use school_van_tracking_saa.Subscription.Service.{
  get_resource_counts, get_subscription_status, assert_active_subscription, assert_within_limits,
}
use school_van_tracking_saa.Students.Service.{CreateStudentDto, ImportResult, create, bulk_import}
use school_van_tracking_saa.Students.Import.{Failed, create-Failed}
use school_van_tracking_saa.Students.Counts.{bulk_import-counts}
use school_van_tracking_saa.Tests.Clients.{
  first_row, key_space, RedisKey-discrete, pick, ℕ_discrete,
}
use school_van_tracking_saa.Tests.School.{admin, morning, school_with}
use school_van_tracking_saa.Tests.PlanRuns.{platform}

abbrev other_route : Route
other_route = record {
  id = 9;
  school_id = 2;
  van_id = none;
  route_code = 91;
  direction = pickup;
  is_active = true;
  is_deleted = false;
}

abbrev two_schools : Platform key_space
two_schools = record platform {
  fleet = record (school_with morning) { routes = other_route ∷ (school_with morning).routes };
}

abbrev child : ℕ → CreateStudentDto
child route = record {
  parent_id = 7;
  admission_number = 62;
  home_latitude = none;
  home_longitude = none;
  route_id = some route;
}

create-Failed_example :
    Failed first_row 80
      (child 9)
      (not_found route_not_found)
      two_schools.fleet
      (create first_row 2000 80 admin (child 9) two_schools).1.fleet
unfolding create assert_within_limits assert_active_subscription get_subscription_status
    get_resource_counts status_of resolve_school_id assign_student_to_route assert_valid_coordinates
    RedisKey-discrete pick ℕ_discrete
create-Failed_example =
    create-Failed first_row 2000 80 admin (child 9) (not_found route_not_found) two_schools refl

bulk_import-counts_example :
    let (answer, w') =
      bulk_import first_row 2000 admin ((80, child 2) ∷ (81, child 9) ∷ []) two_schools in
    (r : ImportResult) × (answer ≡ ok r)
    × (r.created + length r.errors ≡ 2)
    × (length two_schools.fleet.students + r.created ≤ length w'.fleet.students)
    × (length w'.fleet.students ≤ length two_schools.fleet.students + 2)
bulk_import-counts_example =
    bulk_import-counts first_row 2000 admin ((80, child 2) ∷ (81, child 9) ∷ []) two_schools
