-- ===== src/Routes/Effects.antt =====
-- What each handler of Routes/Service does to the stops and to the cached details of routes.
use school_van_tracking_saa.Prelude.{
  ℕ, ◌≤◌, ◌≡◌, ◌≢◌, ◌⊎◌, refl, sym, ◌∙◌, ap, inl, inr, Bool, true, Option, none, some, [], ◌∷◌,
  ◌++◌, count, Prisma, ok, arith, ◌==◌, not, ◌&&◌, update_where, Bool-cases, Option-cases,
  Result-cases, ReadOnly, Keeps, All-of_unique, In-any, any, ltb,
}
use school_van_tracking_saa.Schema.{AuthUser, Route, RouteStop, Database}
use school_van_tracking_saa.Redis.{Redis, Value, RouteView, route_view, route_detail}
use school_van_tracking_saa.Tenant.Context.{resolve_school_id}
use school_van_tracking_saa.Fleet.World.{World}
use school_van_tracking_saa.Fleet.Assignment.{is_route, assign_van, assign_van_to_route}
use school_van_tracking_saa.Routes.Rows.{
  CreateRouteDto, UpdateRouteDto, CreateRouteStopDto, is_stop, is_trip_of, is_at, holds,
  is_code_held, stops_of, new_stop, check_code,
}
use school_van_tracking_saa.Routes.Service.{
  create, update_route, add_stop, remove_stop, remove, apply_update,
}
use school_van_tracking_saa.Fleet.Validation.{assert_valid_coordinates}
use school_van_tracking_saa.Routes.Views.{append-elsewhere, SameElsewhere, update-elsewhere}

module _ (redis : Redis Value) (school : ℕ) where
  -- Whenever a cached detail of a route of the school can be read, its stops are the route's.
  abbrev pub Coherent : World redis → Type 0
  Coherent w =
      (t route : ℕ) (v : RouteView)
      → redis.get w.cache t (route_detail school route) ≡ some (route_view v)
      → v.stops ≡ stops_of route w.db.stops

  -- What a handler does to the stops and to the cache: nothing, or it changes the stops of one
  -- route and drops its detail.
  abbrev pub Effect : ℕ → World redis → World redis → Type 0
  Effect route w w' =
      ((w'.db.stops ≡ w.db.stops) × (w'.cache ≡ w.cache))
      ⊎ (SameElsewhere route w.db.stops w'.db.stops
          × (w'.cache ≡ redis.del w.cache (route_detail school route)))

  pub Effect-Coherent :
      (route : ℕ) (w w' : World redis) → Effect route w w' → Coherent w → Coherent w'
  Effect-Coherent route w w' (inl (stops, cache)) c t other v h =
      c t other v (ap (λ s. redis.get s t (route_detail school other)) (sym cache) ∙ h)
      ∙ ap (stops_of other) (sym stops)
  Effect-Coherent route w w' (inr (stops, cache)) c t other v h =
      let key = route_detail school other in
      let left = sym h ∙ ap (λ s. redis.get s t key) cache in
      elim (Bool-cases (other == route)) [
        | inl y ↦
            let e : other ≡ route = ground arith in
            absurd
              (ground (arith, left, e, redis.get-del_self w.cache t (route_detail school route)))
        | inr n ↦
            let ne : other ≢ route = ground arith in
            let kept = redis.get-del_ne w.cache t (route_detail school route) key (λ e. ne (cc)) in
            c t other v (sym (left ∙ kept)) ∙ sym (stops other ne)
      ]

  module _ (prisma : Prisma) where
    pub create-Effect :
        (new_id : ℕ) (user : AuthUser) (dto : CreateRouteDto) (w : World redis)
        → Effect 0 w (create prisma new_id user dto w).1
    unfolding create
    create-Effect new_id user dto w = inl (ground arith, ground arith)

    -- A step that drops a detail and changes no stop.
    dropped :
        (route : ℕ) (w w' : World redis)
        → w'.db.stops ≡ w.db.stops
        → w'.cache ≡ redis.del w.cache (route_detail school route)
        → Effect route w w'
    dropped route w w' stops cache = inr (λ other ne. ap (stops_of other) stops, cache)

    pub remove-Effect :
        (user : AuthUser) (id : ℕ) (w : World redis)
        → resolve_school_id user none ≡ ok school
        → Effect id w (remove prisma user id w).1
    unfolding remove
    remove-Effect user id w own =
        elim (Option-cases (prisma.find_first (is_route school id) w.db.routes)) [
          | inl n ↦ inl (ground arith, ground arith)
          | inr (r, found) ↦ elim (Bool-cases (ltb 0 (count (is_trip_of id) w.db.trips))) [
            | inl y ↦ inl (ground arith, ground arith)
            | inr n ↦ elim (Bool-cases (any (λ (x : Route). x.id == id) w.db.routes)) [
              | inl y' ↦ dropped id w (remove prisma user id w).1 (ground arith) (ground arith)
              | inr n' ↦ inl (ground arith, ground arith)
            ]
          ]
        ]

    pub add_stop-Effect :
        (new_id : ℕ) (user : AuthUser) (route : ℕ) (dto : CreateRouteStopDto) (w : World redis)
        → resolve_school_id user none ≡ ok school
        → Effect route w (add_stop prisma new_id user route dto w).1
    unfolding add_stop
    add_stop-Effect new_id user route dto w own =
        elim (Option-cases (prisma.find_first (is_route school route) w.db.routes)) [
          | inl n ↦ inl (ground arith, ground arith)
          | inr (r, found) ↦
              elim (Result-cases (assert_valid_coordinates dto.stop_latitude dto.stop_longitude)) [
                | inr (e, bad) ↦ inl (ground arith, ground arith)
                | inl (u, fine) ↦
                    elim (Option-cases
                      (prisma.find_first (is_at route dto.stop_order) w.db.stops)) [
                        | inr (s, at) ↦ inl (ground arith, ground arith)
                        | inl free ↦
                            elim (Bool-cases (any (holds route dto.stop_order) w.db.stops)) [
                              | inl y ↦ inl (ground arith, ground arith)
                              | inr n ↦
                                  let row = new_stop new_id school route dto in
                                  let added : (add_stop prisma new_id user route dto w).1.db.stops
                                      ≡ w.db.stops ++ row ∷ [] =
                                    ground arith in
                                  inr (
                                    λ other ne.
                                        ap (stops_of other) added
                                        ∙ append-elsewhere row w.db.stops other ne,
                                    ground arith,
                                  )
                            ]
                      ]
              ]
        ]

    pub remove_stop-Effect :
        (user : AuthUser) (route stop : ℕ) (w : World redis)
        → resolve_school_id user none ≡ ok school
        → count (λ (s : RouteStop). s.id == stop) w.db.stops ≤ 1
        → Effect route w (remove_stop prisma user route stop w).1
    unfolding remove_stop
    remove_stop-Effect user route stop w own unique =
        let wanted : RouteStop → Bool = λ s. is_stop school route stop s && not s.is_deleted in
        let has_id : RouteStop → Bool = λ s. s.id == stop in
        let marked : RouteStop → RouteStop = λ s. record s { is_deleted = true } in
        elim (Option-cases (prisma.find_first wanted w.db.stops)) [
          | inl n ↦ inl (ground arith, ground arith)
          | inr (x, found) ↦
              let (fits, here) = prisma.find_first_sound wanted w.db.stops found in
              let present = In-any has_id x w.db.stops here (ground arith) in
              let on =
                All-of_unique has_id (λ s. s.route_id ≡ route) x w.db.stops here (ground arith)
                  unique (ground arith) in
              let marks : (remove_stop prisma user route stop w).1.db.stops
                  ≡ update_where has_id marked w.db.stops =
                ground arith in
              inr (
                λ other ne.
                    ap (stops_of other) marks
                    ∙ update-elsewhere route has_id marked w.db.stops (λ s. refl) on other ne,
                ground arith,
              )
        ]

    assign_van-Keeps :
        (route van : ℕ) → Keeps (λ (d : Database). d.stops) (assign_van prisma school route van)
    assign_van-Keeps route van d = ground arith

    apply_update-Effect :
        (now : ℕ) (user : AuthUser) (id : ℕ) (dto : UpdateRouteDto) (van : Option ℕ)
        (w : World redis)
        → Effect id w (apply_update prisma now user school id dto van w).1
    unfolding assign_van_to_route
    apply_update-Effect now user id dto (some van) w =
        let kept = assign_van-Keeps id van w.db in
        elim (Result-cases (assign_van prisma school id van w.db).0) [
          | inl (u, fine) ↦
              dropped id w (apply_update prisma now user school id dto (some van) w).1
                (ground arith) (ground arith)
          | inr (e, bad) ↦ inl (ground arith, ground arith)
        ]
    apply_update-Effect now user id dto none w =
        elim (Bool-cases (is_code_held school id dto.route_code w.db)) [
          | inl y ↦ inl (ground arith, ground arith)
          | inr n ↦ elim (Bool-cases (any (λ (x : Route). x.id == id) w.db.routes)) [
            | inl y' ↦
                dropped id w (apply_update prisma now user school id dto none w).1 (ground arith)
                  (ground arith)
            | inr n' ↦ inl (ground arith, ground arith)
          ]
        ]

    check_code-ReadOnly :
        (row : Route) (code : Option ℕ) → ReadOnly (check_code prisma school row code)
    check_code-ReadOnly row none d = refl
    check_code-ReadOnly row (some code) d = ground arith

    pub update_route-Effect :
        (now : ℕ) (user : AuthUser) (id : ℕ) (dto : UpdateRouteDto) (w : World redis)
        → resolve_school_id user none ≡ ok school
        → Effect id w (update_route prisma now user id dto w).1
    unfolding update_route
    update_route-Effect now user id dto w own =
        elim (Option-cases (prisma.find_first (is_route school id) w.db.routes)) [
          | inl n ↦ inl (ground arith, ground arith)
          | inr (row, found) ↦
              let same = check_code-ReadOnly row dto.route_code w.db in
              elim (Result-cases (check_code prisma school row dto.route_code w.db).0) [
                | inr (e, bad) ↦ inl (ground arith, ground arith)
                | inl (u, fine) ↦
                    let rest : (update_route prisma now user id dto w).1
                        ≡ (apply_update prisma now user school id dto dto.van_id w).1 =
                      ground arith in
                    rw rest (apply_update-Effect now user id dto dto.van_id w)
              ]
        ]
