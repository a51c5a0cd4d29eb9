-- ===== src/Students/Service.antt =====
-- services/api/src/students/services/students.service.ts. Names, grades and addresses are left out;
-- the identifier of a new student is a parameter.
use school_van_tracking_saa.Prelude.{
  ℕ, suc, Bool, true, false, Option, none, some, List, [], ◌∷◌, ◌++◌, any, Prisma, Result, ok, err,
  Exception, Action, pure, lift, throw_if, or_throw, gets, find, update, create as create_row,
  ◌>>=◌, ◌>>◌, ◌==◌, not, ◌&&◌, is_some, or_else, conflict, not_found, unique_violation,
  foreign_key_violation, admission_exists, student_not_found, ℤ, when,
}
use school_van_tracking_saa.Schema.{
  AuthUser, Student, Parent, Route, Database, students_table, AuditAction, AuditEntry, EntityType,
  log,
}
use school_van_tracking_saa.Redis.{Redis, Value}
use school_van_tracking_saa.Tenant.Context.{resolve_school_id}
use school_van_tracking_saa.Fleet.Validation.{assert_valid_coordinates}
use school_van_tracking_saa.Fleet.Assignment.{
  is_student, assign_student_to_route, assign_parent_to_student,
}
use school_van_tracking_saa.Subscription.Store.{Platform}
use school_van_tracking_saa.Subscription.Service.{students, assert_within_limits}

pub record CreateStudentDto : Type 0 where
  pub parent_id : ℕ
  pub admission_number : ℕ
  pub home_latitude : Option ℤ
  pub home_longitude : Option ℤ
  pub route_id : Option ℕ

-- A field that is `none` is not in the request; `route_id` may be given as null.
pub record UpdateStudentDto : Type 0 where
  pub parent_id : Option ℕ
  pub route_id : Option (Option ℕ)
  pub home_latitude : Option ℤ
  pub home_longitude : Option ℤ

abbrev audit_entry : AuditAction → AuthUser → ℕ → ℕ → AuditEntry
audit_entry action user school student = record {
  school_id = some school;
  actor_user_id = user.id;
  action = action;
  entity_type = EntityType.student;
  entity_id = some student;
}

-- `{ schoolId, admissionNumber, deletedAt: null }`
abbrev has_admission : ℕ → ℕ → Student → Bool
has_admission school number s =
    (s.school_id == school) && (s.admission_number == number) && not s.is_deleted

abbrev pub new_student : ℕ → ℕ → CreateStudentDto → Student
new_student id school dto = record {
  id = id;
  school_id = school;
  parent_id = dto.parent_id;
  route_id = dto.route_id;
  admission_number = dto.admission_number;
  home_latitude = dto.home_latitude;
  home_longitude = dto.home_longitude;
  is_deleted = false;
}

-- The route of a new student has to exist, in whichever school.
abbrev has_route : Option ℕ → Database → Bool
has_route none d = true
has_route (some route) d = any (λ (r : Route). r.id == route) d.routes

-- `prisma.student.create`, under the unique key of school and admission number, which deleted rows
-- hold too, and the relations to the parent and the route.
abbrev pub create_student : Student → Action Database (Unit {0})
create_student row = do
  taken ← gets (λ (d : Database).
      any
        (λ (s : Student).
          (s.school_id == row.school_id) && (s.admission_number == row.admission_number))
        d.students)
  throw_if taken unique_violation
  parent ← gets (λ (d : Database). any (λ (p : Parent). p.id == row.parent_id) d.parents)
  throw_if (not parent) foreign_key_violation
  route ← gets (has_route row.route_id)
  throw_if (not route) foreign_key_violation
  create_row students_table row

abbrev patch_home : UpdateStudentDto → Student → Student
patch_home dto s = record s {
  home_latitude = or_else dto.home_latitude s.home_latitude;
  home_longitude = or_else dto.home_longitude s.home_longitude;
}

abbrev remove_student : Student → Student
remove_student s = record s { is_deleted = true; route_id = none }

module _ {redis : Redis Value} where
  abbrev pub on_fleet : {A : Type 0} → Action Database A → Action (Platform redis) A
  on_fleet m w = let (r, d) = m w.fleet in (r, record w { fleet = d })

-- `created`, and the exceptions of the rows that failed, with the position of each from 1.
pub record ImportResult : Type 0 where
  pub created : ℕ
  pub errors : List (ℕ × Exception)

abbrev pub count_row : ℕ → Result ℕ → ImportResult → ImportResult
count_row i (ok id) r = record r { created = suc r.created }
count_row i (err e) r = record r { errors = r.errors ++ (i, e) ∷ [] }

module _ (prisma : Prisma) {redis : Redis Value} where
  -- `if (dto.routeId)`
  abbrev pub assign_given : ℕ → ℕ → Option ℕ → Action (Platform redis) (Unit {0})
  assign_given school student none = pure tt
  assign_given school student (some route) =
      on_fleet (assign_student_to_route prisma school student (some route))

  -- The checks of `create`; the result is the school.
  abbrev pub check_create : ℕ → AuthUser → CreateStudentDto → Action (Platform redis) ℕ
  check_create now user dto = do
    school ← lift (resolve_school_id user none)
    assert_within_limits prisma now school students
    lift (assert_valid_coordinates dto.home_latitude dto.home_longitude)
    dup ← on_fleet (find students_table prisma (has_admission school dto.admission_number))
    throw_if (is_some dup) (conflict admission_exists)
    pure school

  -- The result is the new student's identifier.
  unfoldable pub create : ℕ → ℕ → AuthUser → CreateStudentDto → Action (Platform redis) ℕ
  create now new_id user dto = do
    school ← check_create now user dto
    on_fleet (create_student (new_student new_id school dto))
    assign_given school new_id dto.route_id
    on_fleet (log (audit_entry AuditAction.create user school new_id))
    pure new_id

  -- Each row comes with the identifier that it would get.
  abbrev pub import_from :
      ℕ
      → AuthUser
      → ℕ
      → List (ℕ × CreateStudentDto)
      → ImportResult
      → Platform redis
      → ImportResult × Platform redis
  import_from now user i [] r w = (r, w)
  import_from now user i ((new_id, dto) ∷ rest) r w =
      let (answer, w') = create now new_id user dto w in
      import_from now user (suc i) rest (count_row i answer r) w'

  unfoldable pub bulk_import :
      ℕ → AuthUser → List (ℕ × CreateStudentDto) → Action (Platform redis) ImportResult
  bulk_import now user rows w =
      let (r, w') = import_from now user 1 rows (record { created = 0; errors = [] }) w in
      (ok r, w')

  abbrev find_by_id : AuthUser → ℕ → Action (Platform redis) (Option Student)
  find_by_id user id = do
    school ← lift (resolve_school_id user none)
    on_fleet (find students_table prisma (is_student school id))

  unfoldable pub find_one : AuthUser → ℕ → Action (Platform redis) Student
  find_one user id = do student ← find_by_id user id; or_throw student (not_found student_not_found)

  -- `dto.parentId && dto.parentId !== existing.parentId`
  abbrev change_parent : ℕ → ℕ → Student → Option ℕ → Action (Platform redis) (Unit {0})
  change_parent school id existing none = pure tt
  change_parent school id existing (some parent) =
      when (not (parent == existing.parent_id))
        (on_fleet (assign_parent_to_student prisma school id parent))

  -- `dto.routeId !== undefined`
  abbrev change_route : ℕ → ℕ → Option (Option ℕ) → Action (Platform redis) (Unit {0})
  change_route school id none = pure tt
  change_route school id (some route) = on_fleet (assign_student_to_route prisma school id route)

  unfoldable update_student : AuthUser → ℕ → UpdateStudentDto → Action (Platform redis) (Unit {0})
  update_student user id dto = do
    school ← lift (resolve_school_id user none)
    existing ← find_one user id
    lift (assert_valid_coordinates dto.home_latitude dto.home_longitude)
    change_parent school id existing dto.parent_id
    change_route school id dto.route_id
    on_fleet (update students_table (λ s. s.id == id) (patch_home dto))
    on_fleet (log (audit_entry AuditAction.update user school id))

  unfoldable pub assign_route : AuthUser → ℕ → Option ℕ → Action (Platform redis) (Unit {0})
  assign_route user id route = do
    school ← lift (resolve_school_id user none)
    on_fleet (assign_student_to_route prisma school id route)

  unfoldable pub remove : AuthUser → ℕ → Action (Platform redis) (Unit {0})
  remove user id = do
    school ← lift (resolve_school_id user none)
    student ← find_one user id
    on_fleet (update students_table (λ s. s.id == id) remove_student)
    on_fleet (log (audit_entry AuditAction.delete user school id))
