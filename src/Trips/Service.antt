-- ===== src/Trips/Service.antt =====
-- services/api/src/trips/services/trips.service.ts. `new_id` is the identifier that the database
-- gives to a new row.
use school_van_tracking_saa.Prelude.{
  ℕ, Bool, false, Option, none, some, List, [], ◌∷◌, ◌++◌, map, any, Prisma, Action, Result, pure,
  throw_if, or_throw, lift, gets, modify, find, update, create as create_row, filter, ◌>>=◌, ◌>>◌,
  not_found, bad_request, conflict, record_not_found, ◌==◌, not, ◌&&◌, is_some, get_or,
  if◌then◌else◌, trip_not_found, trip_exists, cannot_cancel, stop_before_cancelling,
}
use school_van_tracking_saa.Schema.{
  AuthUser, Trip, TripStudent, Student, Database, TripStatus, TripDirection, scheduled, in_progress,
  status_eq, direction_eq, trips_table, routes_table, AuditAction, EntityType, log,
  TripStudentStatus,
}
use school_van_tracking_saa.Redis.{Redis, Value}
use school_van_tracking_saa.Tenant.Context.{resolve_school_id}
use school_van_tracking_saa.Fleet.World.{World, on_db, on_cache}
use school_van_tracking_saa.Fleet.Assignment.{
  is_route, rides, assert_route, assert_van, assert_driver,
}
use school_van_tracking_saa.Trips.Lifecycle.{can_transition, assert_transition, assert_schedulable}
use school_van_tracking_saa.Trips.Dto.{TripStudentAssignDto, CreateTripDto, UpdateTripDto}
use school_van_tracking_saa.Tracking.Cache.{clear_active_trip}

-- `TripsRepository.findById`: `{ id: tripId, schoolId, deletedAt: null }`
abbrev pub is_trip_of : ℕ → ℕ → Trip → Bool
is_trip_of school id t = (t.id == id) && (t.school_id == school) && not t.is_deleted

-- A trip that stands in the way of another for the same route, driver, date and direction.
abbrev pub is_duplicate : ℕ → CreateTripDto → Trip → Bool
is_duplicate school dto t =
    (t.school_id == school)
    && (t.route_id == dto.route_id)
    && (t.driver_id == dto.driver_id)
    && direction_eq t.direction dto.direction
    && (t.trip_date == dto.trip_date)
    && not t.is_deleted
    && not (status_eq t.status TripStatus.cancelled)

-- The same for a leg of the daily schedule, whoever drives.
abbrev pub is_leg : ℕ → ℕ → ℕ → TripDirection → Trip → Bool
is_leg school route date direction t =
    (t.school_id == school)
    && (t.route_id == route)
    && direction_eq t.direction direction
    && (t.trip_date == date)
    && not t.is_deleted
    && not (status_eq t.status TripStatus.cancelled)

abbrev pub new_trip : ℕ → ℕ → CreateTripDto → Trip
new_trip new_id school dto = record {
  id = new_id;
  school_id = school;
  route_id = dto.route_id;
  van_id = dto.van_id;
  driver_id = dto.driver_id;
  trip_date = dto.trip_date;
  direction = dto.direction;
  status = scheduled;
  started_at = none;
  ended_at = none;
  is_deleted = false;
}

-- `dto.students?.find((s) => s.studentId === studentId)?.stopId`
abbrev stop_of : List TripStudentAssignDto → ℕ → Option ℕ
stop_of [] student = none
stop_of (s ∷ rest) student = if s.student_id == student then s.stop_id else stop_of rest student

abbrev new_trip_student : ℕ → ℕ → List TripStudentAssignDto → ℕ → TripStudent
new_trip_student school trip assigns student = record {
  school_id = school;
  trip_id = trip;
  student_id = student;
  stop_id = stop_of assigns student;
  status = TripStudentStatus.pending;
  pickup_at = none;
  drop_at = none;
}

-- `createMany({ skipDuplicates: true })` under the unique key of trip and student.
abbrev same_key : TripStudent → TripStudent → Bool
same_key a b = (b.trip_id == a.trip_id) && (b.student_id == a.student_id)

abbrev create_many : List TripStudent → List TripStudent → List TripStudent
create_many [] rows = rows
create_many (x ∷ xs) rows = create_many xs (if any (same_key x) rows then rows else rows ++ x ∷ [])

-- `dto.students?.map(…) ?? (await tx.student.findMany(…)).map(…)`
abbrev student_ids : Option (List TripStudentAssignDto) → List Student → List ℕ
student_ids (some assigns) on_route = map (λ s. s.student_id) assigns
student_ids none on_route = map (λ s. s.id) on_route

-- The transaction of `create`.
abbrev pub create_with_students : ℕ → ℕ → CreateTripDto → Action Database (Unit {0})
create_with_students new_id school dto = do
  create_row trips_table (new_trip new_id school dto)
  on_route ← gets (λ d. filter (rides school dto.route_id) d.students)
  modify (λ d. record d {
    trip_students =
        create_many
          (map (new_trip_student school new_id (get_or dto.students []))
            (student_ids dto.students on_route))
          d.trip_students;
  })

-- The row after `update`: what the request leaves out stays.
abbrev pub patch : UpdateTripDto → Trip → Trip
patch dto t = record t {
  route_id = get_or dto.route_id t.route_id;
  van_id = get_or dto.van_id t.van_id;
  driver_id = get_or dto.driver_id t.driver_id;
  trip_date = get_or dto.trip_date t.trip_date;
  direction = get_or dto.direction t.direction;
  status = get_or dto.status t.status;
}

-- `if (dto.status && dto.status !== existing.status) … else if (existing.status !== SCHEDULED) …`
abbrev pub check_status : Option TripStatus → TripStatus → Result (Unit {0})
check_status none current = assert_schedulable current
check_status (some next) current =
    if not (status_eq next current)
    then assert_transition current next
    else assert_schedulable current

abbrev if_given : Option ℕ → (ℕ → Action Database (Unit {0})) → Action Database (Unit {0})
if_given none m = pure tt
if_given (some id) m = m id

abbrev pub called_off : Trip → Trip
called_off t = record t { status = TripStatus.cancelled }

module _ (prisma : Prisma) where
  unfoldable pub get_by_id : AuthUser → ℕ → Action Database Trip
  get_by_id user trip_id = do
    school ← lift (resolve_school_id user none)
    found ← find trips_table prisma (is_trip_of school trip_id)
    or_throw found (not_found trip_not_found)

  -- What `create` asks before it writes.
  unfoldable pub check_create : AuthUser → CreateTripDto → Action Database ℕ
  check_create user dto = do
    school ← lift (resolve_school_id user none)
    a ← assert_route prisma school dto.route_id
    b ← assert_van prisma school dto.van_id
    c ← assert_driver prisma school dto.driver_id
    route ← find routes_table prisma (is_route school dto.route_id)
    route_row ← or_throw route record_not_found
    duplicate ← find trips_table prisma (is_duplicate school dto)
    throw_if (is_some duplicate) (conflict trip_exists)
    pure school

  abbrev pub write_create : ℕ → AuthUser → CreateTripDto → ℕ → Action Database (Unit {0})
  write_create new_id user dto school = do
    create_with_students new_id school dto
    log (record {
      school_id = some school;
      actor_user_id = user.id;
      action = AuditAction.create;
      entity_type = EntityType.trip;
      entity_id = some new_id;
    })

  unfoldable pub create : ℕ → AuthUser → CreateTripDto → Action Database Trip
  create new_id user dto = do
    school ← check_create user dto
    write_create new_id user dto school
    get_by_id user new_id

  unfoldable pub assert_references : ℕ → UpdateTripDto → Action Database (Unit {0})
  assert_references school dto = do
    if_given dto.driver_id (λ id. assert_driver prisma school id >> pure tt)
    if_given dto.van_id (λ id. assert_van prisma school id >> pure tt)
    if_given dto.route_id (λ id. assert_route prisma school id >> pure tt)

  -- What `update` asks before it writes.
  unfoldable pub check_update : AuthUser → ℕ → UpdateTripDto → Action Database Trip
  check_update user trip_id dto = do
    school ← lift (resolve_school_id user none)
    existing ← get_by_id user trip_id
    lift (check_status dto.status existing.status)
    assert_references school dto
    pure existing

  unfoldable pub update_trip : AuthUser → ℕ → UpdateTripDto → Action Database Trip
  update_trip user trip_id dto = do
    existing ← check_update user trip_id dto
    update trips_table (λ t. t.id == trip_id) (patch dto)
    get_by_id user trip_id

  -- What `cancel` asks before it writes.
  unfoldable pub check_cancel : AuthUser → ℕ → Action Database Trip
  check_cancel user trip_id = do
    trip ← get_by_id user trip_id
    throw_if (not (can_transition trip.status TripStatus.cancelled)) (bad_request cannot_cancel)
    throw_if (status_eq trip.status in_progress) (bad_request stop_before_cancelling)
    pure trip

  unfoldable pub cancel_in_db : AuthUser → ℕ → Action Database Trip
  cancel_in_db user trip_id = do
    trip ← check_cancel user trip_id
    update trips_table (λ t. t.id == trip_id) called_off
    pure trip

  module _ {redis : Redis Value} where
    unfoldable pub cancel : AuthUser → ℕ → Action (World redis) (Unit {0})
    cancel user trip_id = do
      trip ← on_db (cancel_in_db user trip_id)
      on_cache (clear_active_trip redis trip.school_id trip_id none)
