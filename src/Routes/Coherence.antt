-- ===== src/Routes/Coherence.antt =====
-- The cached details of routes against the stops in the database, through the handlers of
-- Routes/Service.
use school_van_tracking_saa.Prelude.{
  ℕ, ◌+◌, ◌/◌, ◌≤◌, ◌≡◌, ◌≢◌, refl, sym, subst, ◌∙◌, ap, inl, inr, none, some, List, count, Prisma,
  ok, arith, ◌==◌, Bool-cases, Option-cases, Result-cases, get_or, ltb,
}
use school_van_tracking_saa.Schema.{AuthUser, RouteStop}
use school_van_tracking_saa.Redis.{Redis, Value, RouteView, route_view, as_route_view, route_detail}
use school_van_tracking_saa.Tenant.Context.{resolve_school_id}
use school_van_tracking_saa.Fleet.World.{World}
use school_van_tracking_saa.Fleet.Assignment.{is_route}
use school_van_tracking_saa.Routes.Rows.{
  CreateRouteDto, UpdateRouteDto, CreateRouteStopDto, stops_of, view_of, transaction, move_stops,
  route_detail_seconds,
}
use school_van_tracking_saa.Routes.Service.{
  create, find_one, update_route, add_stop, reorder_stops, remove_stop, remove,
}
use school_van_tracking_saa.Routes.Effects.{
  Coherent, Effect-Coherent, create-Effect, remove-Effect, add_stop-Effect, remove_stop-Effect,
  update_route-Effect,
}
use school_van_tracking_saa.Routes.Views.{transaction-elsewhere}

module _ (redis : Redis Value) (school : ℕ) where
  -- A detail that is kept for five minutes, with the stops of its route.
  set-Coherent :
      (now id : ℕ) (view : RouteView) (w : World redis)
      → view.stops ≡ stops_of id w.db.stops
      → Coherent redis school w
      → Coherent redis school (record w {
        cache =
            redis.setex w.cache now (route_detail school id) route_detail_seconds (route_view view);
      })
  set-Coherent now id view w right c t route v h =
      let key = route_detail school id in
      elim (Bool-cases (route == id)) [
        | inr n ↦
            let ne : route ≢ id = ground arith in
            let kept =
              redis.get-setex_ne w.cache now t route_detail_seconds key (route_detail school route)
                (route_view view) (λ e. ne (cc)) in
            c t route v (sym kept ∙ h)
        | inl y ↦
            let e : route ≡ id = ground arith in
            let read : redis.get
                  (redis.setex w.cache now key route_detail_seconds (route_view view)) t key
                ≡ some (route_view v) =
              subst
                (λ r.
                  redis.get (redis.setex w.cache now key route_detail_seconds (route_view view)) t
                    (route_detail school r)
                  ≡ some (route_view v))
                e h in
            elim (Bool-cases (ltb t (now + route_detail_seconds))) [
              | inr late ↦ absurd (
                  ground (
                    arith,
                    read,
                    redis.get-setex_late w.cache now t route_detail_seconds key (route_view view)
                        (ground arith),
                  ))
              | inl live ↦
                  let self =
                    redis.get-setex_self w.cache now t route_detail_seconds key (route_view view)
                      (ground arith) in
                  let same : v ≡ view = ap (λ o. get_or (as_route_view o) v) (sym read ∙ self) in
                  ap (λ (x : RouteView). x.stops) same
                  ∙ right
                  ∙ ap (λ r. stops_of r w.db.stops) (sym e)
            ]
      ]

  module _ (prisma : Prisma) where
    find_one-Coherent :
        (now : ℕ) (user : AuthUser) (id : ℕ) (w : World redis)
        → resolve_school_id user none ≡ ok school
        → Coherent redis school w
        → Coherent redis school (find_one prisma now user id w).1
    unfolding find_one
    find_one-Coherent now user id w own c =
        let key = route_detail school id in
        elim (Option-cases (as_route_view (redis.get w.cache (now / 1000) key))) [
          | inr (v, cached) ↦
              let same : (find_one prisma now user id w).1 ≡ w = ground arith in rw same c
          | inl uncached ↦
              elim (Option-cases (prisma.find_first (is_route school id) w.db.routes)) [
                | inl n ↦
                    let same : (find_one prisma now user id w).1 ≡ w = ground arith in rw same c
                | inr (row, found) ↦
                    let (fits, here) =
                      prisma.find_first_sound (is_route school id) w.db.routes found in
                    let view = view_of row w.db in
                    let w' : World redis = record w {
                      cache =
                          redis.setex w.cache (now / 1000) key route_detail_seconds
                            (route_view view);
                    } in
                    let same : (find_one prisma now user id w).1 ≡ w' = ground arith in
                    let the_row : row.id ≡ id = ground arith in
                    rw same (
                      set-Coherent (now / 1000) id view w (ap (λ r. stops_of r w.db.stops) the_row)
                        c)
              ]
        ]

    reorder_stops-Coherent :
        (now : ℕ) (user : AuthUser) (route : ℕ) (stops : List ℕ) (w : World redis)
        → resolve_school_id user none ≡ ok school
        → Coherent redis school w
        → Coherent redis school (reorder_stops prisma now user route stops w).1
    unfolding reorder_stops
    reorder_stops-Coherent now user route stops w own c =
        let elsewhere = transaction-elsewhere school route 1 stops w.db in
        let moved = (transaction (move_stops school route 1 stops) w.db).1 in
        elim (Result-cases (move_stops school route 1 stops w.db).0) [
          | inr (e, bad) ↦
              Effect-Coherent redis school route w (reorder_stops prisma now user route stops w).1
                (inl (ground arith, ground arith)) c
          | inl (u, fine) ↦
              let w' : World redis = record w {
                db = moved;
                cache = redis.del w.cache (route_detail school route);
              } in
              let c' = Effect-Coherent redis school route w w' (inr (elsewhere, refl)) c in
              let same : (reorder_stops prisma now user route stops w).1
                  ≡ (find_one prisma now user route w').1 =
                ground arith in
              rw same (find_one-Coherent now user route w' own c')
        ]

module _ (prisma : Prisma) (redis : Redis Value) (school : ℕ) where
  -- Calls of the handlers by users of one school, in any order. Identifiers of stops are unique, as
  -- the primary key promises.
  pub data Calls : World redis → World redis → Type 0 where
    none_yet : {w : World redis} → Calls w w
    created :
        {v w : World redis} (new_id : ℕ) (user : AuthUser) (dto : CreateRouteDto)
        → Calls v w
        → Calls v (create prisma new_id user dto w).1
    found :
        {v w : World redis} (now : ℕ) (user : AuthUser) (id : ℕ)
        → resolve_school_id user none ≡ ok school
        → Calls v w
        → Calls v (find_one prisma now user id w).1
    updated :
        {v w : World redis} (now : ℕ) (user : AuthUser) (id : ℕ) (dto : UpdateRouteDto)
        → resolve_school_id user none ≡ ok school
        → Calls v w
        → Calls v (update_route prisma now user id dto w).1
    stop_added :
        {v w : World redis} (new_id : ℕ) (user : AuthUser) (route : ℕ) (dto : CreateRouteStopDto)
        → resolve_school_id user none ≡ ok school
        → Calls v w
        → Calls v (add_stop prisma new_id user route dto w).1
    reordered :
        {v w : World redis} (now : ℕ) (user : AuthUser) (route : ℕ) (stops : List ℕ)
        → resolve_school_id user none ≡ ok school
        → Calls v w
        → Calls v (reorder_stops prisma now user route stops w).1
    stop_removed :
        {v w : World redis} (user : AuthUser) (route stop : ℕ)
        → resolve_school_id user none ≡ ok school
        → count (λ (s : RouteStop). s.id == stop) w.db.stops ≤ 1
        → Calls v w
        → Calls v (remove_stop prisma user route stop w).1
    removed :
        {v w : World redis} (user : AuthUser) (id : ℕ)
        → resolve_school_id user none ≡ ok school
        → Calls v w
        → Calls v (remove prisma user id w).1

  -- Through any sequence of calls of the handlers of routes by users of one school, every detail of
  -- a route of that school that the cache still gives shows the route's stops in their order, if it
  -- does at first, as it does with an empty cache.
  pub Calls-Coherent :
      (v w : World redis) → Calls v w → Coherent redis school v → Coherent redis school w
  Calls-Coherent v w none_yet c = c
  Calls-Coherent v w (created {w = u} new_id user dto r) c =
      Effect-Coherent redis school 0 u (create prisma new_id user dto u).1
        (create-Effect redis school prisma new_id user dto u) (Calls-Coherent v u r c)
  Calls-Coherent v w (found {w = u} now user id own r) c =
      find_one-Coherent redis school prisma now user id u own (Calls-Coherent v u r c)
  Calls-Coherent v w (updated {w = u} now user id dto own r) c =
      Effect-Coherent redis school id u (update_route prisma now user id dto u).1
        (update_route-Effect redis school prisma now user id dto u own) (Calls-Coherent v u r c)
  Calls-Coherent v w (stop_added {w = u} new_id user route dto own r) c =
      Effect-Coherent redis school route u (add_stop prisma new_id user route dto u).1
        (add_stop-Effect redis school prisma new_id user route dto u own) (Calls-Coherent v u r c)
  Calls-Coherent v w (reordered {w = u} now user route stops own r) c =
      reorder_stops-Coherent redis school prisma now user route stops u own (Calls-Coherent v u r c)
  Calls-Coherent v w (stop_removed {w = u} user route stop own unique r) c =
      Effect-Coherent redis school route u (remove_stop prisma user route stop u).1
        (remove_stop-Effect redis school prisma user route stop u own unique)
        (Calls-Coherent v u r c)
  Calls-Coherent v w (removed {w = u} user id own r) c =
      Effect-Coherent redis school id u (remove prisma user id u).1
        (remove-Effect redis school prisma user id u own) (Calls-Coherent v u r c)
