-- ===== src/Fleet/Assignment/Capacity.antt =====
-- Seats: the capacity checks of `assignVanToRoute` and `assignStudentToRoute`.
use school_van_tracking_saa.Prelude.{
  ℕ, ◌+◌, ◌≤◌, ◌≡◌, inl, inr, true, Option, none, some, Prisma, In, List, count, ok, arith, ◌==◌,
  Option-cases, update_where, count-update_where-split, not, ◌&&◌,
}
use school_van_tracking_saa.Schema.{Route, Van, Student, Database}
use school_van_tracking_saa.Redis.{Redis, Value}
use school_van_tracking_saa.Fleet.World.{World}
use school_van_tracking_saa.Fleet.Assignment.{
  is_route, is_van, is_student, rides, assign_van_to_route, assign_student_to_route,
  check_van_of_route, is_present,
}

module _ (prisma : Prisma) {redis : Redis Value} (now school route van_id : ℕ)
    (w : World redis) where
  -- When a van is assigned to a route, the van is an active van of the school, the students of the
  -- route have seats in it, and every row of the route names it.
  pub assign_van_to_route-fits :
      (assign_van_to_route prisma now school route van_id w).0 ≡ ok tt
      → (v : Van) × In v w.db.vans
        × (is_van school van_id v ≡ true)
        × (v.is_active ≡ true)
        × (count
              (rides school route)
              (assign_van_to_route prisma now school route van_id w).1.db.students
            ≤ v.capacity)
  unfolding assign_van_to_route
  assign_van_to_route-fits h =
      elim (Option-cases (prisma.find_first (is_van school van_id) w.db.vans)) [
        | inl n ↦ absurd (ground arith)
        | inr (v, found) ↦
            let (fits, here) = prisma.find_first_sound (is_van school van_id) w.db.vans found in
            (v, here, fits, ground arith, ground arith)
      ]

-- The students of a route have seats in the van of the route, if it has one that is not removed.
abbrev pub Seated : Prisma → List Van → ℕ → Option ℕ → Type 0
Seated prisma vans riders none = Unit
Seated prisma vans riders (some van_id) = elim (prisma.find_first (is_present van_id) vans) [
  | none ↦ Unit
  | some v ↦ riders ≤ v.capacity
]

module _ (prisma : Prisma) (school student_id route_id : ℕ) (d : Database) where
  check_van-Seated :
      (van : Option ℕ) (n : ℕ)
      → n ≤ count (λ x. rides school route_id x && not (x.id == student_id)) d.students + 1
      → (check_van_of_route prisma school route_id student_id van d).0 ≡ ok tt
      → Seated prisma d.vans n van
  check_van-Seated none n le h = tt
  check_van-Seated (some van_id) n le h =
      elim (Option-cases (prisma.find_first (is_present van_id) d.vans)) [
        | inl e ↦ rw (e, Seated) tt
        | inr (v, e) ↦ rw (e, Seated) (ground arith)
      ]

  -- The students of the route after the assignment: those of before without this one, and this one.
  riders_after :
      (s : Student)
      → is_student school student_id s ≡ true
      → count (λ x. x.id == student_id) d.students ≤ 1
      → count
          (rides school route_id)
          (update_where (λ x. x.id == s.id) (λ x. record x { route_id = some route_id }) d.students)
        ≤ count (λ x. rides school route_id x && not (x.id == student_id)) d.students + 1
  riders_after s fits unique =
      let e : s.id ≡ student_id = ground arith in
      rw e (
        omega (
          arith,
          count-update_where-split (rides school route_id) (λ x. x.id == student_id)
              (λ x. record x { route_id = some route_id }) d.students,
        ))

  -- When a student, whose identifier no other row has, is assigned to a route, the route is an
  -- active route of the school, and afterwards its students have seats in its van, if it has one that
  -- is not removed.
  pub assign_student_to_route-Seated :
      count (λ x. x.id == student_id) d.students ≤ 1
      → (assign_student_to_route prisma school student_id (some route_id) d).0 ≡ ok tt
      → (r : Route) × In r d.routes
        × (is_route school route_id r ≡ true)
        × (r.is_active ≡ true)
        × Seated prisma d.vans
            (count
              (rides school route_id)
              (assign_student_to_route prisma school student_id (some route_id) d).1.students)
            r.van_id
  unfolding assign_student_to_route
  assign_student_to_route-Seated unique h =
      elim (Option-cases (prisma.find_first (is_student school student_id) d.students)) [
        | inl n ↦ absurd (ground arith)
        | inr (s, student) ↦
            elim (Option-cases (prisma.find_first (is_route school route_id) d.routes)) [
              | inl n ↦ absurd (ground arith)
              | inr (r, found) ↦
                  let (s_fits, s_here) =
                    prisma.find_first_sound (is_student school student_id) d.students student in
                  let (fits, here) =
                    prisma.find_first_sound (is_route school route_id) d.routes found in
                  let after : (assign_student_to_route prisma school student_id (some route_id)
                        d).1.students
                      ≡ update_where (λ x. x.id == s.id)
                          (λ x. record x { route_id = some route_id }) d.students =
                    ground arith in
                  (
                    r,
                    here,
                    fits,
                    ground arith,
                    check_van-Seated r.van_id _ (rw after (riders_after s s_fits unique))
                        (ground arith),
                  )
            ]
      ]
