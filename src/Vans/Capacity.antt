-- ===== src/Vans/Capacity.antt =====
-- Seats when a van's capacity is lowered, by `update` of Vans/Service.
use school_van_tracking_saa.Prelude.{
  ℕ, subst, ltb, ReadOnly, ◌≤◌, ◌<◌, ◌≡◌, refl, inl, inr, Bool, true, Option, none, some, In, count,
  Prisma, ok, arith, ◌==◌, ◌&&◌, is_value, Option-cases, Result-cases, Bool-cases, In-any,
  count-le-of_imp,
}
use school_van_tracking_saa.Schema.{AuthUser, Route, Van, Database}
use school_van_tracking_saa.Redis.{Redis, Value}
use school_van_tracking_saa.Tenant.Context.{resolve_school_id}
use school_van_tracking_saa.Fleet.Assignment.{is_van, rides}
use school_van_tracking_saa.Subscription.Store.{Platform}
use school_van_tracking_saa.Vans.Service.{
  UpdateVanDto, rides_van, is_van_of, check_registration, update_van,
}

-- The students of each route of a van are among the students of the van.
route-le-van :
    (school van : ℕ) (r : Route) (d : Database)
    → In r d.routes
    → r.van_id ≡ some van
    → count (rides school r.id) d.students ≤ count (rides_van school van d.routes) d.students
route-le-van school van r d here names =
    let it : Route → Bool = λ x. (x.id == r.id) && is_value x.van_id van in
    let has = In-any it r d.routes here (ground arith) in
    count-le-of_imp (rides school r.id) (rides_van school van d.routes) d.students (λ s fits.
      elim (Option-cases s.route_id) [
        | inl n ↦ absurd (ground arith)
        | inr (x, e) ↦
            let same : x ≡ r.id = ground arith in
            let named : is_van_of van s.route_id d.routes ≡ true = rw (e, same) has in ground arith
      ])

check_registration-ReadOnly :
    (prisma : Prisma) (school : ℕ) (v : Van) (number : Option ℕ)
    → ReadOnly (check_registration prisma school v number)
check_registration-ReadOnly prisma school v none d = refl
check_registration-ReadOnly prisma school v (some number) d = ground arith

module _ (prisma : Prisma) {redis : Redis Value} where
  -- A van whose capacity an update has lowered still has a seat for each student of each of its
  -- routes.
  pub update_van-seats :
      (user : AuthUser) (id school capacity : ℕ) (dto : UpdateVanDto) (w : Platform redis) (v : Van)
      → resolve_school_id user none ≡ ok school
      → prisma.find_first (is_van school id) w.fleet.vans ≡ some v
      → dto.capacity ≡ some capacity
      → 0 < capacity
      → capacity < v.capacity
      → (update_van prisma user id dto w).0 ≡ ok tt
      → (r : Route) → In r (update_van prisma user id dto w).1.fleet.routes
      → r.van_id ≡ some id
      → count (rides school r.id) (update_van prisma user id dto w).1.fleet.students ≤ capacity
  unfolding update_van
  update_van-seats user id school capacity dto w v own found given some_seats lower h r here names =
      let (fits, v_here) = prisma.find_first_sound (is_van school id) w.fleet.vans found in
      let same_van : v.id ≡ id = ground arith in
      elim (Result-cases (check_registration prisma school v dto.registration_no w.fleet).0) [
        | inr (e, bad) ↦ absurd (ground arith)
        | inl (u, fine) ↦
            let read = check_registration-ReadOnly prisma school v dto.registration_no w.fleet in
            let on_van = count (rides_van school v.id w.fleet.routes) w.fleet.students in
            let after = (update_van prisma user id dto w).1.fleet in
            elim (Bool-cases (ltb capacity on_van)) [
              | inl full ↦ absurd (ground arith)
              | inr seated ↦
                  let routes : after.routes ≡ w.fleet.routes = ground arith in
                  let riders : after.students ≡ w.fleet.students = ground arith in
                  let listed : In r w.fleet.routes = subst (In r) routes here in
                  let enough : on_van ≤ capacity = ground arith in
                  rw riders (
                    omega (
                      arith,
                      enough,
                      route-le-van school v.id r w.fleet listed (rw same_van names),
                    ))
            ]
      ]
