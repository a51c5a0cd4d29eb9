-- ===== src/Routes/Rows.antt =====
-- The requests of services/api/src/routes/dto, and the conditions and writes of
-- services/api/src/routes/services/routes.service.ts on routes and stops. Names are left out. A unique
-- key of the database holds the rows that are deleted, too.
use school_van_tracking_saa.Prelude.{
  ℕ, suc, Bool, true, false, Option, none, some, List, [], ◌∷◌, map, filter, any, Prisma, Result,
  ok, err, Action, pure, throw_if, gets, find, update_many, create as create_row, ◌>>=◌, ◌>>◌, ◌==◌,
  not, ◌&&◌, is_some, is_value, get_or, length, conflict, route_code_exists, unique_violation,
  foreign_key_violation, record_not_found, ℤ, if◌then◌else◌, leb,
}
use school_van_tracking_saa.Schema.{
  AuthUser, Trip, Route, RouteStop, Van, Student, Database, TripDirection, pickup, in_progress,
  status_eq, routes_table, stops_table, AuditAction, AuditEntry, EntityType,
}
use school_van_tracking_saa.Redis.{RouteView}

pub record CreateRouteDto : Type 0 where
  pub route_code : ℕ
  pub direction : Option TripDirection
  pub van_id : Option ℕ

-- A field that is `none` is not in the request, or null.
pub record UpdateRouteDto : Type 0 where
  pub route_code : Option ℕ
  pub direction : Option TripDirection
  pub van_id : Option ℕ
  pub is_active : Option Bool

pub record CreateRouteStopDto : Type 0 where
  pub stop_order : ℕ
  pub stop_latitude : Option ℤ
  pub stop_longitude : Option ℤ

abbrev pub route_detail_seconds : ℕ
route_detail_seconds = 300

abbrev pub route_entry : AuditAction → AuthUser → ℕ → ℕ → AuditEntry
route_entry action user school route = record {
  school_id = some school;
  actor_user_id = user.id;
  action = action;
  entity_type = EntityType.route;
  entity_id = some route;
}

-- `{ schoolId, routeCode, deletedAt: null }`
abbrev pub has_code : ℕ → ℕ → Route → Bool
has_code school code r = (r.school_id == school) && (r.route_code == code) && not r.is_deleted

-- `{ routeId, stopOrder, deletedAt: null }`
abbrev pub is_at : ℕ → ℕ → RouteStop → Bool
is_at route position s = (s.route_id == route) && (s.stop_order == position) && not s.is_deleted

-- The unique key of route and position, which deleted stops hold too.
abbrev pub holds : ℕ → ℕ → RouteStop → Bool
holds route position s = (s.route_id == route) && (s.stop_order == position)

-- `{ id: stopId, routeId, schoolId }`
abbrev pub is_stop : ℕ → ℕ → ℕ → RouteStop → Bool
is_stop school route stop s = (s.id == stop) && (s.route_id == route) && (s.school_id == school)

abbrev pub new_route : ℕ → ℕ → CreateRouteDto → Route
new_route id school dto = record {
  id = id;
  school_id = school;
  van_id = dto.van_id;
  route_code = dto.route_code;
  direction = get_or dto.direction pickup;
  is_active = true;
  is_deleted = false;
}

abbrev pub new_stop : ℕ → ℕ → ℕ → CreateRouteStopDto → RouteStop
new_stop id school route dto = record {
  id = id;
  school_id = school;
  route_id = route;
  stop_order = dto.stop_order;
  stop_latitude = dto.stop_latitude;
  stop_longitude = dto.stop_longitude;
  is_deleted = false;
}

abbrev has_van : Option ℕ → Database → Bool
has_van none d = true
has_van (some van) d = any (λ (v : Van). v.id == van) d.vans

-- `prisma.route.create`, under the unique key of school and code and the relation to the van.
abbrev pub create_route : Route → Action Database (Unit {0})
create_route row = do
  taken ← gets (λ (d : Database).
      any (λ (r : Route). (r.school_id == row.school_id) && (r.route_code == row.route_code))
        d.routes)
  throw_if taken unique_violation
  van ← gets (has_van row.van_id)
  throw_if (not van) foreign_key_violation
  create_row routes_table row

-- `prisma.routeStop.create`, under the unique key of route and position.
abbrev pub create_stop : RouteStop → Action Database (Unit {0})
create_stop row = do
  taken ← gets (λ (d : Database). any (holds row.route_id row.stop_order) d.stops)
  throw_if taken unique_violation
  create_row stops_table row

-- Whether another route of the school holds the code that a request gives a route.
abbrev pub is_code_held : ℕ → ℕ → Option ℕ → Database → Bool
is_code_held school id none d = false
is_code_held school id (some code) d =
    any (λ (r : Route). (r.school_id == school) && (r.route_code == code) && not (r.id == id))
      d.routes

abbrev pub patch_route : UpdateRouteDto → Route → Route
patch_route dto r = record r {
  route_code = get_or dto.route_code r.route_code;
  direction = get_or dto.direction r.direction;
  is_active = get_or dto.is_active r.is_active;
}

-- One `routeStop.update` of a reorder, under the unique key of route and position.
abbrev pub move_stop : ℕ → ℕ → ℕ → ℕ → Action Database (Unit {0})
move_stop school route position stop = do
  found ← gets (λ (d : Database). any (is_stop school route stop) d.stops)
  throw_if (not found) record_not_found
  taken ← gets (λ (d : Database).
      any (λ (s : RouteStop). holds route position s && not (s.id == stop)) d.stops)
  throw_if taken unique_violation
  update_many stops_table (is_stop school route stop) (λ s. record s { stop_order = position })

-- The stops get the positions from the given one on.
abbrev pub move_stops : ℕ → ℕ → ℕ → List ℕ → Action Database (Unit {0})
move_stops school route position [] = pure tt
move_stops school route position (stop ∷ rest) =
    move_stop school route position stop >> move_stops school route (suc position) rest

-- `prisma.$transaction`: what fails changes nothing.
abbrev roll_back : {A : Type 0} → Database → Result A → Database → Database
roll_back before (ok a) after = after
roll_back before (err e) after = before

abbrev pub transaction : {A : Type 0} → Action Database A → Action Database A
transaction m d = let (r, d') = m d in (r, roll_back d r d')

abbrev pub is_on : ℕ → RouteStop → Bool
is_on route s = (s.route_id == route) && not s.is_deleted

-- `orderBy: { stopOrder: 'asc' }`
abbrev insert_stop : RouteStop → List RouteStop → List RouteStop
insert_stop s [] = s ∷ []
insert_stop s (t ∷ rest) =
    let later = insert_stop s rest in
    if leb s.stop_order t.stop_order then s ∷ t ∷ rest else t ∷ later

abbrev pub sort_stops : List RouteStop → List RouteStop
sort_stops [] = []
sort_stops (s ∷ rest) = insert_stop s (sort_stops rest)

unfoldable pub stops_of : ℕ → List RouteStop → List RouteStop
stops_of route stops = sort_stops (filter (is_on route) stops)

abbrev students_of : ℕ → Database → List ℕ
students_of route d =
    map (λ (x : Student). x.id)
      (filter (λ (x : Student). is_value x.route_id route && not x.is_deleted) d.students)

-- `enriched`
abbrev pub view_of : Route → Database → RouteView
view_of route d = record {
  route = route;
  stops = stops_of route.id d.stops;
  students = students_of route.id d;
  student_count = length (students_of route.id d);
  stop_count = length (stops_of route.id d.stops);
}

-- `dto.routeCode && dto.routeCode !== route.routeCode`
abbrev pub check_code : Prisma → ℕ → Route → Option ℕ → Action Database (Unit {0})
check_code prisma school route none = pure tt
check_code prisma school route (some code) = if code == route.route_code then pure tt else (do
  taken ← find routes_table prisma (λ r. has_code school code r && not (r.id == route.id))
  throw_if (is_some taken) (conflict route_code_exists))

abbrev pub is_trip_of : ℕ → Trip → Bool
is_trip_of route t = (t.route_id == route) && status_eq t.status in_progress
