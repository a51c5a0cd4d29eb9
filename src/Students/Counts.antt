-- ===== src/Students/Counts.antt =====
-- How many students an import adds: `bulkImport` over the creations of Students/Import.
use school_van_tracking_saa.Prelude.{
  ℕ, suc, ◌+◌, ◌≤◌, ◌≡◌, refl, inl, inr, ap, sym, subst, Option, some, List, [], ◌∷◌, ◌++◌, Prisma,
  ok, err, Exception, Result-cases, Option-cases, arith, length, length-append, length-update_where,
  ◌==◌,
}
use school_van_tracking_saa.Schema.{AuthUser, Student, Database}
use school_van_tracking_saa.Redis.{Redis, Value}
use school_van_tracking_saa.Fleet.Assignment.{is_student, check_route, assign_student_to_route}
use school_van_tracking_saa.Subscription.Store.{Platform}
use school_van_tracking_saa.Students.Service.{
  CreateStudentDto, new_student, create_student, check_create, create, bulk_import, import_from,
  ImportResult, count_row,
}
use school_van_tracking_saa.Students.Import.{
  check_route-ReadOnly, check_create-Keeps, create_student-ok, create-Failed,
}

-- An assignment adds and drops no student.
length-assign :
    (prisma : Prisma) (school student : ℕ) (route : Option ℕ) (d : Database)
    → length (assign_student_to_route prisma school student route d).1.students ≡ length d.students
unfolding assign_student_to_route
length-assign prisma school student route d =
    let same = check_route-ReadOnly prisma school student route d in
    elim (Option-cases (prisma.find_first (is_student school student) d.students)) [
      | inl n ↦ ground arith
      | inr (x, found) ↦
          let kept =
            length-update_where (λ (y : Student). y.id == x.id) (λ y. record y { route_id = route })
              d.students in
          elim (Result-cases (check_route prisma school student route d).0) [
            | inr (e, thrown) ↦ ground arith
            | inl (t, fine) ↦ ground arith
          ]
    ]

module _ (prisma : Prisma) {redis : Redis Value} (now : ℕ) (user : AuthUser) where
  abbrev stored : Platform redis → ℕ
  stored w = length w.fleet.students

  created-one :
      (new_id id : ℕ) (dto : CreateStudentDto) (w : Platform redis)
      → (create prisma now new_id user dto w).0 ≡ ok id
      → stored (create prisma now new_id user dto w).1 ≡ suc (stored w)
  unfolding create
  created-one new_id id dto w h =
      let kept = check_create-Keeps prisma now user dto w in
      elim (Result-cases (check_create prisma now user dto w).0) [
        | inr (e, r) ↦ absurd (ground arith)
        | inl (school, r) ↦
            let w1 = (check_create prisma now user dto w).1 in
            let row = new_student new_id school dto in
            elim (Result-cases (create_student row w1.fleet).0) [
              | inr (e, r') ↦ absurd (ground arith)
              | inl (x, r') ↦
                  let added = create_student-ok row w1.fleet r' in
                  let d1 : Database = record w.fleet { students = w.fleet.students ++ row ∷ [] } in
                  let there : (create_student row w1.fleet).1 ≡ d1 = ground arith in
                  let more = length-append w.fleet.students (row ∷ []) in
                  elim (Option-cases dto.route_id) [
                    | inl n ↦ ground arith
                    | inr (route, given) ↦
                        let same = length-assign prisma school new_id (some route) d1 in
                        elim (Result-cases
                          (assign_student_to_route prisma school new_id (some route) d1).0) [
                            | inl (y, fine) ↦ ground arith
                            | inr (e, bad) ↦ absurd (ground arith)
                          ]
                  ]
            ]
      ]

  created-none :
      (new_id : ℕ) (e : Exception) (dto : CreateStudentDto) (w : Platform redis)
      → (create prisma now new_id user dto w).0 ≡ err e
      → let n = stored (create prisma now new_id user dto w).1 in
        (stored w ≤ n) × (n ≤ suc (stored w))
  created-none new_id e dto w h = elim (create-Failed prisma now new_id user dto e w h) [
    | inl same ↦ let n = ap (λ (d : Database). length d.students) same in omega arith
    | inr (school, route, given, left, bad) ↦
        let n = ap (λ (d : Database). length d.students) left in
        omega (arith, n, length-append w.fleet.students (new_student new_id school dto ∷ []))
  ]

  -- What an import from a position on adds to the counts and to the table.
  abbrev Counted : ℕ → ImportResult → ImportResult → Platform redis → Platform redis → Type 0
  Counted n r r' w w' =
      (r'.created + length r'.errors ≡ r.created + length r.errors + n)
      × (stored w + r'.created ≤ stored w' + r.created)
      × (stored w' ≤ stored w + n)

  import_from-Counted :
      (i : ℕ) (rows : List (ℕ × CreateStudentDto)) (r : ImportResult) (w : Platform redis)
      → let (r', w') = import_from prisma now user i rows r w in Counted (length rows) r r' w w'
  import_from-Counted i [] r w = omega arith
  import_from-Counted i ((new_id, dto) ∷ rest) r w =
      let w1 = (create prisma now new_id user dto w).1 in
      elim (Result-cases (create prisma now new_id user dto w).0) [
        | inl (id, made) ↦
            let one = created-one new_id id dto w made in
            let later = import_from-Counted (suc i) rest (count_row i (ok id) r) w1 in
            subst (λ p. Counted (suc (length rest)) r p.0 w p.1)
              (sym (ap (λ a. import_from prisma now user (suc i) rest (count_row i a r) w1) made))
              (omega arith)
        | inr (e, failed) ↦
            let none_or_one = created-none new_id e dto w failed in
            let later = import_from-Counted (suc i) rest (count_row i (err e) r) w1 in
            let longer = length-append r.errors ((i, e) ∷ []) in
            subst (λ p. Counted (suc (length rest)) r p.0 w p.1)
              (sym (ap (λ a. import_from prisma now user (suc i) rest (count_row i a r) w1) failed))
              (omega arith)
      ]

  -- An import of students always answers. Each row counts as created or as an error. The table grows
  -- by at least the number that is reported as created, and by at most the number of rows.
  pub bulk_import-counts :
      (rows : List (ℕ × CreateStudentDto)) (w : Platform redis)
      → let (answer, w') = bulk_import prisma now user rows w in
        (r : ImportResult) × (answer ≡ ok r)
        × (r.created + length r.errors ≡ length rows)
        × (stored w + r.created ≤ stored w')
        × (stored w' ≤ stored w + length rows)
  unfolding bulk_import
  bulk_import-counts rows w =
      let start : ImportResult = record { created = 0; errors = [] } in
      let (total, least, most) = import_from-Counted 1 rows start w in
      ((import_from prisma now user 1 rows start w).0, refl, omega arith, omega arith, most)
