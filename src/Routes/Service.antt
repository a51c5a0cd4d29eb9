-- ===== src/Routes/Service.antt =====
-- The handlers of services/api/src/routes/services/routes.service.ts. The identifiers of a new route
-- and of a new stop are parameters.
use school_van_tracking_saa.Prelude.{
  ℕ, ◌/◌, true, false, Option, none, some, List, Prisma, Action, pure, throw_if, or_throw, lift,
  gets, find, update, count_rows, ◌>>=◌, ◌>>◌, ◌==◌, ltb, not, ◌&&◌, is_some, conflict, not_found,
  route_not_found, route_code_exists, stop_order_exists, stop_not_found, route_has_active_trips,
  unique_violation,
}
use school_van_tracking_saa.Schema.{
  AuthUser, Route, routes_table, stops_table, trips_table, AuditAction, log,
}
use school_van_tracking_saa.Redis.{Redis, Value, RouteView, route_view, as_route_view, route_detail}
use school_van_tracking_saa.Tenant.Context.{resolve_school_id}
use school_van_tracking_saa.Fleet.World.{World, on_db, on_cache}
use school_van_tracking_saa.Fleet.Cache.{invalidate_route}
use school_van_tracking_saa.Fleet.Validation.{assert_valid_coordinates}
use school_van_tracking_saa.Fleet.Assignment.{is_route, assign_van_to_route}
use school_van_tracking_saa.Routes.Rows.{
  CreateRouteDto, UpdateRouteDto, CreateRouteStopDto, route_detail_seconds, route_entry, has_code,
  is_at, is_stop, new_route, new_stop, create_route, create_stop, is_code_held, patch_route,
  move_stops, transaction, view_of, check_code, is_trip_of,
}

module _ (prisma : Prisma) {redis : Redis Value} where
  -- `RoutesRepository.findById`
  abbrev pub find_by_id : AuthUser → ℕ → Action (World redis) (Option Route)
  find_by_id user id = do
    school ← lift (resolve_school_id user none)
    on_db (find routes_table prisma (is_route school id))

  abbrev get_route : AuthUser → ℕ → Action (World redis) Route
  get_route user id = do route ← find_by_id user id; or_throw route (not_found route_not_found)

  -- The result is the new route's identifier.
  unfoldable pub create : ℕ → AuthUser → CreateRouteDto → Action (World redis) ℕ
  create new_id user dto = do
    school ← lift (resolve_school_id user none)
    exists ← on_db (find routes_table prisma (has_code school dto.route_code))
    on_db (throw_if (is_some exists) (conflict route_code_exists))
    on_db (create_route (new_route new_id school dto))
    on_db (log (route_entry AuditAction.create user school new_id))
    pure new_id

  abbrev cached_or_load : ℕ → ℕ → AuthUser → ℕ → Option RouteView → Action (World redis) RouteView
  cached_or_load now school user id (some cached) = pure cached
  cached_or_load now school user id none = do
    route ← get_route user id
    view ← on_db (gets (view_of route))
    on_cache (λ c.
        redis.setex c (now / 1000) (route_detail school id) route_detail_seconds (route_view view))
    pure view

  unfoldable pub find_one : ℕ → AuthUser → ℕ → Action (World redis) RouteView
  find_one now user id = do
    school ← lift (resolve_school_id user none)
    cached ← gets (λ (w : World redis).
        as_route_view (redis.get w.cache (now / 1000) (route_detail school id)))
    cached_or_load now school user id cached

  -- `if (dto.vanId)`: the rest of the request is left out then.
  abbrev pub apply_update :
      ℕ → AuthUser → ℕ → ℕ → UpdateRouteDto → Option ℕ → Action (World redis) (Unit {0})
  apply_update now user school id dto (some van) = do
    assign_van_to_route prisma {redis = redis} now school id van
    on_db (log (route_entry AuditAction.update user school id))
  apply_update now user school id dto none = do
    held ← on_db (gets (is_code_held school id dto.route_code))
    on_db (throw_if held unique_violation)
    on_db (update routes_table (λ r. r.id == id) (patch_route dto))
    invalidate_route school id
    on_db (log (route_entry AuditAction.update user school id))

  unfoldable pub update_route : ℕ → AuthUser → ℕ → UpdateRouteDto → Action (World redis) (Unit {0})
  update_route now user id dto = do
    school ← lift (resolve_school_id user none)
    route ← get_route user id
    on_db (check_code prisma school route dto.route_code)
    apply_update now user school id dto dto.van_id

  -- The result is the new stop's identifier.
  unfoldable pub add_stop : ℕ → AuthUser → ℕ → CreateRouteStopDto → Action (World redis) ℕ
  add_stop new_id user route_id dto = do
    school ← lift (resolve_school_id user none)
    route ← get_route user route_id
    lift (assert_valid_coordinates dto.stop_latitude dto.stop_longitude)
    order_taken ← on_db (find stops_table prisma (is_at route_id dto.stop_order))
    on_db (throw_if (is_some order_taken) (conflict stop_order_exists))
    on_db (create_stop (new_stop new_id school route_id dto))
    invalidate_route school route_id
    pure new_id

  unfoldable pub reorder_stops : ℕ → AuthUser → ℕ → List ℕ → Action (World redis) RouteView
  reorder_stops now user route_id stop_ids = do
    school ← lift (resolve_school_id user none)
    find_by_id user route_id
    on_db (transaction (move_stops school route_id 1 stop_ids))
    invalidate_route school route_id
    find_one now user route_id

  unfoldable pub remove_stop : AuthUser → ℕ → ℕ → Action (World redis) (Unit {0})
  remove_stop user route_id stop_id = do
    school ← lift (resolve_school_id user none)
    found ←
        on_db (find stops_table prisma (λ s. is_stop school route_id stop_id s && not s.is_deleted))
    stop ← or_throw found (not_found stop_not_found)
    on_db (update stops_table (λ s. s.id == stop_id) (λ s. record s { is_deleted = true }))
    invalidate_route school route_id

  unfoldable pub remove : AuthUser → ℕ → Action (World redis) (Unit {0})
  remove user id = do
    school ← lift (resolve_school_id user none)
    route ← get_route user id
    active_trips ← on_db (count_rows trips_table (is_trip_of id))
    on_db (throw_if (ltb 0 active_trips) (conflict route_has_active_trips))
    on_db (
        update routes_table (λ r. r.id == id)
          (λ r. record r { is_deleted = true; is_active = false }))
    invalidate_route school id
    on_db (log (route_entry AuditAction.delete user school id))
