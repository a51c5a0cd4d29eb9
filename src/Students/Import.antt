-- ===== src/Students/Import.antt =====
-- What a creation and an import of students leave in the table.
use school_van_tracking_saa.Prelude.{
  ℕ, ◌≡◌, ◌⊎◌, refl, inl, inr, Option, none, some, [], ◌∷◌, ◌++◌, Prisma, ok, err, Exception,
  Result-cases, Option-cases, Bool-cases, arith, Keeps, ReadOnly, any, ◌==◌,
}
use school_van_tracking_saa.Schema.{AuthUser, Student, Database}
use school_van_tracking_saa.Redis.{Redis, Value}
use school_van_tracking_saa.Tenant.Context.{resolve_school_id}
use school_van_tracking_saa.Fleet.Assignment.{is_student, check_route, assign_student_to_route}
use school_van_tracking_saa.Subscription.Store.{Platform}
use school_van_tracking_saa.Subscription.Service.{students}
use school_van_tracking_saa.Subscription.Kept.{limits-Keeps}
use school_van_tracking_saa.Students.Service.{
  CreateStudentDto, new_student, create_student, check_create, create,
}

module _ (prisma : Prisma) where
  pub check_route-ReadOnly :
      (school student : ℕ) (route : Option ℕ) → ReadOnly (check_route prisma school student route)
  check_route-ReadOnly school student none d = refl
  check_route-ReadOnly school student (some route) d = ground arith

  -- An assignment that fails changes nothing.
  assign-err :
      (school student : ℕ) (route : Option ℕ) (e : Exception) (d : Database)
      → (assign_student_to_route prisma school student route d).0 ≡ err e
      → (assign_student_to_route prisma school student route d).1 ≡ d
  unfolding assign_student_to_route
  assign-err school student route e d h =
      elim (Option-cases (prisma.find_first (is_student school student) d.students)) [
        | inl n ↦ ground arith
        | inr (x, found) ↦
            let same = check_route-ReadOnly school student route d in
            elim (Result-cases (check_route prisma school student route d).0) [
              | inr (e', thrown) ↦ ground arith
              | inl (t, fine) ↦ elim (Bool-cases (any (λ (y : Student). y.id == x.id) d.students)) [
                | inl y ↦ absurd (ground arith)
                | inr n ↦ ground arith
              ]
            ]
      ]

-- The two ways in which a creation can fail: before the student is stored, or in the assignment
-- to the route.
abbrev pub Failed : Prisma → ℕ → CreateStudentDto → Exception → Database → Database → Type 0
Failed prisma new_id dto e d d' =
    (d' ≡ d)
    ⊎ ((school : ℕ) × (route : ℕ) × (dto.route_id ≡ some route)
        × (d' ≡ record d { students = d.students ++ new_student new_id school dto ∷ [] })
        × ((assign_student_to_route prisma school new_id (some route) d').0 ≡ err e))

pub create_student-ok :
    (row : Student) (d : Database)
    → (create_student row d).0 ≡ ok tt
    → (create_student row d).1 ≡ record d { students = d.students ++ row ∷ [] }
create_student-ok row d h = ground arith

create_student-err :
    (row : Student) (e : Exception) (d : Database)
    → (create_student row d).0 ≡ err e
    → (create_student row d).1 ≡ d
create_student-err row e d h = ground arith

module _ (prisma : Prisma) {redis : Redis Value} where
  pub check_create-Keeps :
      (now : ℕ) (user : AuthUser) (dto : CreateStudentDto)
      → Keeps (λ (w : Platform redis). w.fleet) (check_create prisma now user dto)
  check_create-Keeps now user dto w = elim (Result-cases (resolve_school_id user none)) [
    | inr (e, r) ↦ ground arith
    | inl (school, r) ↦ ground (arith, limits-Keeps prisma now school students w)
  ]

  -- A creation of a student that fails changes nothing that the fleet stores, unless the request
  -- names a route and it is the assignment to the route that fails: then the student stays stored,
  -- with that route.
  pub create-Failed :
      (now new_id : ℕ) (user : AuthUser) (dto : CreateStudentDto) (e : Exception)
      (w : Platform redis)
      → (create prisma now new_id user dto w).0 ≡ err e
      → Failed prisma new_id dto e w.fleet (create prisma now new_id user dto w).1.fleet
  unfolding create
  create-Failed now new_id user dto e w h =
      let kept = check_create-Keeps now user dto w in
      elim (Result-cases (check_create prisma now user dto w).0) [
        | inr (e', r) ↦ inl (ground arith)
        | inl (school, r) ↦
            let w1 = (check_create prisma now user dto w).1 in
            let row = new_student new_id school dto in
            elim (Result-cases (create_student row w1.fleet).0) [
              | inr (e', r') ↦
                  let same = create_student-err row e' w1.fleet r' in inl (ground arith)
              | inl (x, r') ↦
                  let stored = create_student-ok row w1.fleet r' in
                  elim (Option-cases dto.route_id) [
                    | inl n ↦ absurd (ground arith)
                    | inr (route, given) ↦
                        let d1 : Database = record w.fleet {
                          students = w.fleet.students ++ row ∷ [];
                        } in
                        let there : (create_student row w1.fleet).1 ≡ d1 = ground arith in
                        elim (Result-cases
                          (assign_student_to_route prisma school new_id (some route) d1).0) [
                            | inl (y, fine) ↦ absurd (ground arith)
                            | inr (e', bad) ↦
                                let same = assign-err prisma school new_id (some route) e' d1 bad in
                                let left : (create prisma now new_id user dto w).1.fleet ≡ d1 =
                                  ground arith in
                                let which : e' ≡ e = ground arith in
                                inr (school, route, given, left, rw (left, ← which) bad)
                          ]
                  ]
            ]
      ]
