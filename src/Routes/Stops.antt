-- ===== src/Routes/Stops.antt =====
-- The positions of stops, by `addStop` and `reorderStops` of Routes/Service.
use school_van_tracking_saa.Prelude.{
  ℕ, suc, ◌+◌, ◌≤◌, ◌<◌, ◌≡◌, ◌≢◌, refl, subst, ◌∙◌, ap, inl, inr, Bool, true, none, List, [], ◌∷◌,
  any, count, length, Prisma, Result, ok, arith, ◌==◌, not, ◌&&◌, Bool-cases, Result-cases, bind-ok,
  bind-eq-ok, In-any, any-In, any-update_where, Keeps, All-of_unique, update_where-same,
  eq-of_unique, count-le-of_imp,
}
use school_van_tracking_saa.Schema.{AuthUser, RouteStop, Database}
use school_van_tracking_saa.Redis.{Redis, Value, RouteView, route_detail}
use school_van_tracking_saa.Tenant.Context.{resolve_school_id}
use school_van_tracking_saa.Fleet.World.{World}
use school_van_tracking_saa.Routes.Rows.{CreateRouteStopDto, is_stop, holds, move_stop, move_stops}
use school_van_tracking_saa.Routes.Service.{find_one, remove_stop, reorder_stops, add_stop}

-- A stop that is moved to a position that is held is the stop that holds it, and stays.
move_stop-same :
    (school route position stop : ℕ) (d : Database)
    → ((id : ℕ) → count (λ (s : RouteStop). s.id == id) d.stops ≤ 1)
    → any (holds route position) d.stops ≡ true
    → (move_stop school route position stop d).0 ≡ ok tt
    → (move_stop school route position stop d).1 ≡ d
move_stop-same school route position stop d unique held h =
    let move : RouteStop → RouteStop = λ s. record s { stop_order = position } in
    let (x, here, fits) = any-In (holds route position) d.stops held in
    let other : RouteStop → Bool = λ s. holds route position s && not (s.id == stop) in
    elim (Bool-cases (any (is_stop school route stop) d.stops)) [
      | inr n ↦ absurd (ground arith)
      | inl found ↦ elim (Bool-cases (any other d.stops)) [
        | inl taken ↦ absurd (ground arith)
        | inr free ↦ elim (Bool-cases (x.id == stop)) [
          | inr n ↦ absurd (ground (arith, In-any other x d.stops here (ground arith)))
          | inl y ↦
              let (z, there, it) = any-In (is_stop school route stop) d.stops found in
              let has_id : RouteStop → Bool = λ s. s.id == stop in
              let one = eq-of_unique has_id x z d.stops here there y (ground arith) (unique stop) in
              let few : count (is_stop school route stop) d.stops ≤ 1 = omega (
                arith,
                unique stop,
                count-le-of_imp (is_stop school route stop) has_id d.stops (λ s. ground arith),
              ) in
              let position_of : position ≡ x.stop_order = ground arith in
              let same : move z ≡ z = rw one (ap (λ n. record x { stop_order = n }) position_of) in
              let all =
                All-of_unique (is_stop school route stop) (λ s. move s ≡ s) z d.stops there it few
                  same in
              let kept = update_where-same (is_stop school route stop) move d.stops all in
              ground arith
        ]
      ]
    ]

-- Positions from one on that are all held.
abbrev pub Held : ℕ → ℕ → ℕ → Database → Type 0
Held route from many d = (i : ℕ) → from ≤ i → i < from + many → any (holds route i) d.stops ≡ true

move_stops-same :
    (school route from : ℕ) (stops : List ℕ) (d : Database)
    → ((id : ℕ) → count (λ (s : RouteStop). s.id == id) d.stops ≤ 1)
    → Held route from (length stops) d
    → (move_stops school route from stops d).0 ≡ ok tt
    → (move_stops school route from stops d).1 ≡ d
move_stops-same school route from [] d unique held h = refl
move_stops-same school route from (stop ∷ rest) d unique held h =
    let (u, first, others) =
      bind-eq-ok (move_stop school route from stop) (λ _. move_stops school route (suc from) rest) d
        h in
    let stays =
      move_stop-same school route from stop d unique (held from (omega arith) (omega arith))
        first in
    let ran =
      ap (λ (p : Result (Unit {0}) × Database). p.1)
        (bind-ok (move_stop school route from stop) (λ _. move_stops school route (suc from) rest) d
          u first) in
    let kept =
      move_stops-same school route (suc from) rest d unique
        (λ i l m. held i (omega arith) (omega arith))
        (subst (λ y. (move_stops school route (suc from) rest y).0 ≡ ok tt) stays others) in
    ran ∙ ap (λ y. (move_stops school route (suc from) rest y).1) stays ∙ kept

module _ (prisma : Prisma) {redis : Redis Value} where
  find_one-Keeps :
      (now : ℕ) (user : AuthUser) (route : ℕ)
      → Keeps (λ (w : World redis). w.db) (find_one prisma now user route)
  unfolding find_one
  find_one-Keeps now user route w = ground arith

  -- If each of the positions 1 to n of a route is held by some stop, a removed one included, and no
  -- two stops have one identifier, a reorder of n listed stops that succeeds leaves every row as it
  -- is: a stop that has to move runs into the unique key of route and position.
  pub reorder_stops-same :
      (now : ℕ) (user : AuthUser) (route : ℕ) (stops : List ℕ) (w : World redis) (v : RouteView)
      → ((id : ℕ) → count (λ (s : RouteStop). s.id == id) w.db.stops ≤ 1)
      → ((i : ℕ) → 1 ≤ i → i ≤ length stops → any (holds route i) w.db.stops ≡ true)
      → (reorder_stops prisma now user route stops w).0 ≡ ok v
      → (reorder_stops prisma now user route stops w).1.db ≡ w.db
  unfolding reorder_stops
  reorder_stops-same now user route stops w v unique held h =
      elim (Result-cases (resolve_school_id user none)) [
        | inr (e, r) ↦ absurd (ground arith)
        | inl (school, r) ↦ elim (Result-cases (move_stops school route 1 stops w.db).0) [
          | inr (e, bad) ↦ absurd (ground arith)
          | inl (x, fine) ↦
              let same =
                move_stops-same school route 1 stops w.db unique
                  (λ i l m. held i (omega arith) (omega arith)) fine in
              let w' : World redis = record w {
                cache = redis.del w.cache (route_detail school route);
              } in
              let kept = find_one-Keeps now user route w' in ground arith
        ]
      ]

  add_stop-held :
      (new_id : ℕ) (user : AuthUser) (route : ℕ) (dto : CreateRouteStopDto) (w : World redis)
      (id : ℕ)
      → any (holds route dto.stop_order) w.db.stops ≡ true
      → (add_stop prisma new_id user route dto w).0 ≢ ok id
  unfolding add_stop
  add_stop-held new_id user route dto w id held h = ground arith

  -- The calls of `removeStop` for these stops of a route, one after the other.
  abbrev pub remove_stops : AuthUser → ℕ → List ℕ → World redis → World redis
  remove_stops user route [] w = w
  remove_stops user route (stop ∷ rest) w =
      remove_stops user route rest (remove_stop prisma user route stop w).1

  remove_stops-holds :
      (user : AuthUser) (route position : ℕ) (stops : List ℕ) (w : World redis)
      → any (holds route position) w.db.stops ≡ true
      → any (holds route position) (remove_stops user route stops w).db.stops ≡ true
  unfolding remove_stop
  remove_stops-holds user route position [] w held = held
  remove_stops-holds user route position (stop ∷ rest) w held =
      let still =
        any-update_where (holds route position) (λ (s : RouteStop). s.id == stop)
          (λ s. record s { is_deleted = true }) w.db.stops (λ s. refl) in
      remove_stops-holds user route position rest (remove_stop prisma user route stop w).1
        (ground arith)

  -- Removing stops frees no position: if a stop of the route holds the position, then after any
  -- number of calls of `removeStop`, that stop's own included, no stop can be added there. (A reorder
  -- may move the stop and free its position; none is called in between here.)
  pub add_stop-removed :
      (new_id : ℕ) (user : AuthUser) (route : ℕ) (stops : List ℕ) (dto : CreateRouteStopDto)
      (w : World redis) (id : ℕ)
      → any (holds route dto.stop_order) w.db.stops ≡ true
      → (add_stop prisma new_id user route dto (remove_stops user route stops w)).0 ≢ ok id
  add_stop-removed new_id user route stops dto w id held =
      add_stop-held new_id user route dto (remove_stops user route stops w) id
        (remove_stops-holds user route dto.stop_order stops w held)
