-- ===== src/Staff/Drivers.antt =====
-- services/api/src/drivers/services/drivers.service.ts. Licence dates and employee codes are left
-- out; the identifiers of a new user and driver are parameters.
use school_van_tracking_saa.Prelude.{
  ℕ, ◌/◌, Bool, true, false, Option, none, some, any, Prisma, Action, pure, throw_if, or_throw,
  lift, gets, find, update, create as create_row, when, ◌>>=◌, ◌>>◌, ◌==◌, not, ◌&&◌, is_some,
  get_or, conflict, not_found, driver_not_found, route_not_found, license_exists, unique_violation,
  if◌then◌else◌,
}
use school_van_tracking_saa.Schema.{
  AuthUser, RoleCode, Driver, Database, drivers_table, routes_table, AuditAction, AuditEntry,
  EntityType, log,
}
use school_van_tracking_saa.Redis.{Redis, Value}
use school_van_tracking_saa.Tenant.Context.{resolve_school_id}
use school_van_tracking_saa.Fleet.World.{on_cache}
use school_van_tracking_saa.Fleet.Cache.{get_driver_van_assignment, clear_driver_van_assignment}
use school_van_tracking_saa.Fleet.Assignment.{
  is_driver, is_route, assert_no_active_trip_for_driver, assign_driver_to_van,
}
use school_van_tracking_saa.Subscription.Service.{drivers, assert_within_limits}
use school_van_tracking_saa.Staff.Office.{
  Office, office_users, on_platform, on_tables, on_world, new_user, create_account, transaction,
  deactivate, check_email,
}

pub record CreateDriverDto : Type 0 where
  pub email : ℕ
  pub password : ℕ
  pub license_number : ℕ

-- A field that is `none` is not in the request.
pub record UpdateDriverDto : Type 0 where
  pub license_number : Option ℕ
  pub is_available : Option Bool

-- What the database makes up for a new driver.
pub record NewIds : Type 0 where
  pub user_id : ℕ
  pub profile_id : ℕ

abbrev driver_entry : AuditAction → AuthUser → ℕ → ℕ → AuditEntry
driver_entry action user school driver = record {
  school_id = some school;
  actor_user_id = user.id;
  action = action;
  entity_type = EntityType.driver;
  entity_id = some driver;
}

-- `{ schoolId, licenseNumber, deletedAt: null }`
abbrev pub has_license : ℕ → ℕ → Driver → Bool
has_license school number x =
    (x.school_id == school) && (x.license_number == number) && not x.is_deleted

-- The unique key of school and licence, which deleted drivers hold too.
abbrev holds_license : ℕ → ℕ → Driver → Bool
holds_license school number x = (x.school_id == school) && (x.license_number == number)

abbrev pub new_driver : NewIds → ℕ → CreateDriverDto → Driver
new_driver ids school dto = record {
  id = ids.profile_id;
  school_id = school;
  user_id = ids.user_id;
  license_number = dto.license_number;
  is_available = true;
  is_deleted = false;
}

abbrev pub create_driver : Driver → Action Database (Unit {0})
create_driver row = do
  taken ← gets (λ (d : Database). any (holds_license row.school_id row.license_number) d.drivers)
  throw_if taken unique_violation
  create_row drivers_table row

abbrev patch_driver : UpdateDriverDto → Driver → Driver
patch_driver dto x = record x {
  license_number = get_or dto.license_number x.license_number;
  is_available = get_or dto.is_available x.is_available;
}

abbrev is_license_held : ℕ → ℕ → Option ℕ → Database → Bool
is_license_held school id none d = false
is_license_held school id (some number) d =
    any (λ (x : Driver). holds_license school number x && not (x.id == id)) d.drivers

-- `dto.licenseNumber && dto.licenseNumber !== driver.licenseNumber`
abbrev check_license : Prisma → ℕ → Driver → Option ℕ → Action Database (Unit {0})
check_license prisma school driver none = pure tt
check_license prisma school driver (some number) =
    if number == driver.license_number then pure tt else (do
      taken ←
          find drivers_table prisma (λ x. has_license school number x && not (x.id == driver.id))
      throw_if (is_some taken) (conflict license_exists))

module _ (prisma : Prisma) {redis : Redis Value} where
  abbrev find_driver : AuthUser → ℕ → Action (Office redis) (Option Driver)
  find_driver user id = do
    school ← lift (resolve_school_id user none)
    on_tables (find drivers_table prisma (is_driver school id))

  abbrev get_driver : AuthUser → ℕ → Action (Office redis) Driver
  get_driver user id = do driver ← find_driver user id; or_throw driver (not_found driver_not_found)

  -- The result is the new driver's identifier.
  unfoldable pub create :
      (ℕ → ℕ) → (ℕ → ℕ) → ℕ → NewIds → AuthUser → CreateDriverDto → Action (Office redis) ℕ
  create lower hash_password now ids user dto = do
    school ← lift (resolve_school_id user none)
    on_platform (assert_within_limits prisma now school drivers)
    check_email prisma school (lower dto.email)
    license_taken ← on_tables (find drivers_table prisma (has_license school dto.license_number))
    throw_if (is_some license_taken) (conflict license_exists)
    transaction (do
      create_account prisma school RoleCode.driver
          (new_user ids.user_id school (lower dto.email) (hash_password dto.password))
      on_tables (create_driver (new_driver ids school dto)))
    on_tables (log (driver_entry AuditAction.create user school ids.profile_id))
    pure ids.profile_id

  -- The driver, and the van that the cache assigns.
  unfoldable pub find_one : ℕ → AuthUser → ℕ → Action (Office redis) (Driver × Option ℕ)
  find_one now user id = do
    driver ← get_driver user id
    school ← lift (resolve_school_id user none)
    van ← gets (λ (o : Office redis).
        get_driver_van_assignment redis (now / 1000) school id o.platform.cache)
    pure (driver, van)

  unfoldable update_driver : AuthUser → ℕ → UpdateDriverDto → Action (Office redis) (Unit {0})
  update_driver user id dto = do
    school ← lift (resolve_school_id user none)
    driver ← get_driver user id
    on_tables (check_license prisma school driver dto.license_number)
    update office_users (λ u. u.id == driver.user_id) (λ u. u)
    held ← on_tables (gets (is_license_held school id dto.license_number))
    throw_if held unique_violation
    on_tables
        (update drivers_table (λ x. (x.id == id) && (x.school_id == school)) (patch_driver dto))
    on_tables (log (driver_entry AuditAction.update user school id))

  abbrev assert_idle : AuthUser → ℕ → Action (Office redis) (Unit {0})
  assert_idle user id = do
    school ← lift (resolve_school_id user none)
    on_tables (assert_no_active_trip_for_driver prisma school id)

  -- `dto.isAvailable === false`
  abbrev check_status : AuthUser → ℕ → Option Bool → Action (Office redis) (Unit {0})
  check_status user id none = pure tt
  check_status user id (some is_available) = when (not is_available) (assert_idle user id)

  unfoldable update_status : AuthUser → ℕ → Option Bool → Action (Office redis) (Unit {0})
  update_status user id is_available = do
    check_status user id is_available
    update_driver user id (record { license_number = none; is_available = is_available })

  unfoldable pub assign_van : ℕ → AuthUser → ℕ → ℕ → Action (Office redis) (Unit {0})
  assign_van now user id van = do
    school ← lift (resolve_school_id user none)
    find_driver user id
    on_world (assign_driver_to_van prisma {redis = redis} now school id van)

  -- The answer is a note; nothing is stored.
  unfoldable pub assign_route : AuthUser → ℕ → ℕ → Action (Office redis) (Unit {0})
  assign_route user id route_id = do
    school ← lift (resolve_school_id user none)
    driver ← get_driver user id
    route ← on_tables (find routes_table prisma (is_route school route_id))
    throw_if (not (is_some route)) (not_found route_not_found)

  unfoldable pub remove : AuthUser → ℕ → Action (Office redis) (Unit {0})
  remove user id = do
    school ← lift (resolve_school_id user none)
    on_tables (assert_no_active_trip_for_driver prisma school id)
    driver ← get_driver user id
    on_tables (
        update drivers_table (λ x. x.id == id)
          (λ x. record x { is_deleted = true; is_available = false }))
    deactivate driver.user_id
    on_world (on_cache (clear_driver_van_assignment redis school id none))
    on_tables (log (driver_entry AuditAction.delete user school id))
