-- ===== src/Vans/Service.antt =====
-- services/api/src/vans/services/vans.service.ts. Labels and device codes are left out; the
-- identifier of a new van is a parameter.
use school_van_tracking_saa.Prelude.{
  ℕ, Bool, true, false, Option, none, some, List, [], any, count, Prisma, Action, pure, throw_if,
  or_throw, lift, gets, find, update, create as create_row, when, ◌>>=◌, ◌>>◌, ◌==◌, ltb, not, ◌&&◌,
  is_some, is_value, get_or, conflict, not_found, van_not_found, registration_exists,
  capacity_below_students, unique_violation, if◌then◌else◌,
}
use school_van_tracking_saa.Schema.{
  AuthUser, Route, Van, Student, Database, vans_table, AuditAction, AuditEntry, EntityType, log,
}
use school_van_tracking_saa.Redis.{Redis, Value}
use school_van_tracking_saa.Tenant.Context.{resolve_school_id}
use school_van_tracking_saa.Fleet.World.{World}
use school_van_tracking_saa.Fleet.Assignment.{
  is_van, assert_no_active_trip_for_van, assign_van_to_route,
}
use school_van_tracking_saa.Subscription.Store.{Platform}
use school_van_tracking_saa.Subscription.Service.{vans, assert_within_limits}
use school_van_tracking_saa.Students.Service.{on_fleet}

pub record CreateVanDto : Type 0 where
  pub registration_no : ℕ
  pub capacity : ℕ

-- A field that is `none` is not in the request. A capacity is at least 1.
pub record UpdateVanDto : Type 0 where
  pub registration_no : Option ℕ
  pub capacity : Option ℕ
  pub is_active : Option Bool

abbrev van_entry : AuditAction → AuthUser → ℕ → ℕ → AuditEntry
van_entry action user school van = record {
  school_id = some school;
  actor_user_id = user.id;
  action = action;
  entity_type = EntityType.van;
  entity_id = some van;
}

-- `{ schoolId, registrationNo, deletedAt: null }`
abbrev pub has_registration : ℕ → ℕ → Van → Bool
has_registration school number v =
    (v.school_id == school) && (v.registration_no == number) && not v.is_deleted

-- The unique key of school and registration, which deleted vans hold too.
abbrev pub holds_registration : ℕ → ℕ → Van → Bool
holds_registration school number v = (v.school_id == school) && (v.registration_no == number)

abbrev pub new_van : ℕ → ℕ → CreateVanDto → Van
new_van id school dto = record {
  id = id;
  school_id = school;
  registration_no = dto.registration_no;
  capacity = dto.capacity;
  is_active = true;
  is_deleted = false;
}

abbrev create_van : Van → Action Database (Unit {0})
create_van row = do
  taken ← gets (λ (d : Database). any (holds_registration row.school_id row.registration_no) d.vans)
  throw_if taken unique_violation
  create_row vans_table row

-- `{ schoolId, route: { vanId: id }, deletedAt: null }`
abbrev pub is_van_of : ℕ → Option ℕ → List Route → Bool
is_van_of van none routes = false
is_van_of van (some route) routes =
    any (λ (r : Route). (r.id == route) && is_value r.van_id van) routes

abbrev pub rides_van : ℕ → ℕ → List Route → Student → Bool
rides_van school van routes s =
    (s.school_id == school) && is_van_of van s.route_id routes && not s.is_deleted

abbrev patch_van : UpdateVanDto → Van → Van
patch_van dto v = record v {
  registration_no = get_or dto.registration_no v.registration_no;
  capacity = get_or dto.capacity v.capacity;
  is_active = get_or dto.is_active v.is_active;
}

abbrev is_registration_held : ℕ → ℕ → Option ℕ → Database → Bool
is_registration_held school id none d = false
is_registration_held school id (some number) d =
    any (λ (v : Van). holds_registration school number v && not (v.id == id)) d.vans

module _ (prisma : Prisma) where
  -- `dto.registrationNo && dto.registrationNo !== van.registrationNo`
  abbrev pub check_registration : ℕ → Van → Option ℕ → Action Database (Unit {0})
  check_registration school van none = pure tt
  check_registration school van (some number) =
      if number == van.registration_no then pure tt else (do
        taken ←
            find vans_table prisma (λ v. has_registration school number v && not (v.id == van.id))
        throw_if (is_some taken) (conflict registration_exists))

  -- `dto.capacity && dto.capacity < van.capacity`
  abbrev pub check_capacity : ℕ → Van → Option ℕ → Action Database (Unit {0})
  check_capacity school van none = pure tt
  check_capacity school van (some capacity) = when (ltb 0 capacity && ltb capacity van.capacity) (do
    students ← gets (λ (d : Database). count (rides_van school van.id d.routes) d.students)
    throw_if (ltb capacity students) (conflict capacity_below_students))

module _ (prisma : Prisma) {redis : Redis Value} where
  abbrev get_van : AuthUser → ℕ → Action (Platform redis) Van
  get_van user id = do
    school ← lift (resolve_school_id user none)
    van ← on_fleet (find vans_table prisma (is_van school id))
    or_throw van (not_found van_not_found)

  -- The checks of `create`; the result is the school.
  abbrev check_new_van : ℕ → AuthUser → CreateVanDto → Action (Platform redis) ℕ
  check_new_van now user dto = do
    school ← lift (resolve_school_id user none)
    assert_within_limits prisma now school vans
    exists ← on_fleet (find vans_table prisma (has_registration school dto.registration_no))
    on_fleet (throw_if (is_some exists) (conflict registration_exists))
    pure school

  -- The result is the new van's identifier.
  unfoldable pub create : ℕ → ℕ → AuthUser → CreateVanDto → Action (Platform redis) ℕ
  create now new_id user dto = do
    school ← check_new_van now user dto
    on_fleet (create_van (new_van new_id school dto))
    on_fleet (log (van_entry AuditAction.create user school new_id))
    pure new_id

  unfoldable pub update_van : AuthUser → ℕ → UpdateVanDto → Action (Platform redis) (Unit {0})
  update_van user id dto = do
    school ← lift (resolve_school_id user none)
    van ← get_van user id
    on_fleet (check_registration prisma school van dto.registration_no)
    on_fleet (check_capacity prisma school van dto.capacity)
    held ← on_fleet (gets (is_registration_held school id dto.registration_no))
    on_fleet (throw_if held unique_violation)
    on_fleet (update vans_table (λ v. (v.id == id) && (v.school_id == school)) (patch_van dto))
    on_fleet (log (van_entry AuditAction.update user school id))

  -- The assignment works on the database and the cache alone.
  abbrev on_world : {A : Type 0} → Action (World redis) A → Action (Platform redis) A
  on_world m w =
      let (r, x) = m (record { db = w.fleet; cache = w.cache; notices = [] }) in
      (r, record w { fleet = x.db; cache = x.cache })

  unfoldable pub assign_route : ℕ → AuthUser → ℕ → ℕ → Action (Platform redis) (Unit {0})
  assign_route now user id route = do
    school ← lift (resolve_school_id user none)
    on_world (assign_van_to_route prisma {redis = redis} now school route id)

  unfoldable pub remove : AuthUser → ℕ → Action (Platform redis) (Unit {0})
  remove user id = do
    school ← lift (resolve_school_id user none)
    on_fleet (assert_no_active_trip_for_van prisma school id)
    van ← get_van user id
    on_fleet (
        update vans_table (λ v. v.id == id)
          (λ v. record v { is_deleted = true; is_active = false }))
    on_fleet (log (van_entry AuditAction.delete user school id))
