-- ===== src/Tracking/Positions.antt =====
-- What an accepted position does, and who may mark a student.
use school_van_tracking_saa.Prelude.{
  All, filter, update_where, Bool-cases, not, Bool, false, In, Option-cases, ℕ, ◌+◌, ◌/◌, ◌<◌, ◌≡◌,
  ◌↔◌, ◌⊎◌, refl, sym, subst, ◌∙◌, ap, inl, inr, true, Option, none, some, List, [], ◌∷◌, ◌++◌,
  Prisma, Action, Result, ok, bind-eq-ok, bind-ok, arith, any,
}
use school_van_tracking_saa.Schema.{AuthUser, Trip, TripStudent, TripStudentStatus}
use school_van_tracking_saa.Redis.{
  Redis, Value, VanLocationBroadcast, location, as_location, trip_location, van_location,
  active_trips_set,
}
use school_van_tracking_saa.Tenant.Context.{resolve_school_id}
use school_van_tracking_saa.Tenant.Store.{TenantStore}
use school_van_tracking_saa.Fleet.World.{World}
use school_van_tracking_saa.Tracking.Cache.{
  set_latest_location, set_last_known_position, get_trip_location, should_throttle,
}
use school_van_tracking_saa.Tracking.Integrity.{Distance, assert_position}
use school_van_tracking_saa.Trips.Session.{is_running, assert_active_driver_trip}
use school_van_tracking_saa.Tracking.Service.{
  TrackingUpdateDto, Live, broadcast_of, marks, mark_student_picked, process_driver_location,
  admit_position, answer_position, min_gps_interval_ms, position_of, cached_if,
}

-- Within two minutes the position that was set last for a trip can be read.
set_last_known_position-get :
    (redis : Redis Value) (now later trip : ℕ) (p : VanLocationBroadcast) (c : redis.Store)
    → later < now + 120
    → get_trip_location redis later p.school_id p.trip_id
        (set_last_known_position redis now trip p c)
      ≡ some p
unfolding get_trip_location set_last_known_position set_latest_location
set_last_known_position-get redis now later trip p c in_time = ap as_location (
    redis.get-expire_ne _ now later _ (active_trips_set p.school_id)
      (trip_location p.school_id p.trip_id) (λ e. cc)
    ∙ redis.get-sadd _ later (active_trips_set p.school_id) (trip_location p.school_id p.trip_id)
        p.trip_id
    ∙ redis.get-setex_ne _ now later _ (van_location p.school_id p.van_id)
        (trip_location p.school_id p.trip_id) _ (λ e. cc)
    ∙ redis.get-setex_self _ now later 120 (trip_location p.school_id p.trip_id) (location p)
        in_time)

-- After an update the rows that did not fit are there unchanged and in order, and what `f` gives
-- holds of all that fit.
update_where-splits :
    {A : Type 0} (q : A → Bool) (f : A → A) (P : A → Type 0) (xs : List A)
    → ((x : A) → q (f x) ≡ q x)
    → ((x : A) → P (f x))
    → All (λ x. q x ≡ true → P x) (update_where q f xs)
      × (filter (λ x. not (q x)) (update_where q f xs) ≡ filter (λ x. not (q x)) xs)
update_where-splits q f P [] stays makes = (tt, refl)
update_where-splits q f P (x ∷ xs) stays makes =
    let (rest, same) = update_where-splits q f P xs stays makes in
    elim (Bool-cases (q x)) [
      | inl y ↦ rw y ((λ e. makes x, rest), rw (stays x, y) same)
      | inr n ↦ rw n ((λ e. absurd (ground arith), rest), rw n (ap (λ ys. x ∷ ys) same))
    ]

All-of_any-false :
    {A : Type 0} (q : A → Bool) (P : A → Type 0) (xs : List A)
    → any q xs ≡ false
    → All (λ x. q x ≡ true → P x) xs
All-of_any-false q P [] h = tt
All-of_any-false q P (x ∷ xs) h =
    (λ fits. absurd (ground arith), All-of_any-false q P xs (ground arith))

module _ {redis : Redis Value} (store : Option TenantStore) (now : ℕ) (user : AuthUser)
    (trip student school : ℕ) (w : World redis) where
  -- A user with a school marks a student as picked up exactly when the trip has a row for the
  -- student that is in the tenant of the request, which is any row if the request has none: the
  -- user's school is not asked for. Afterwards every such row is picked, with this time, and the
  -- other rows are those of before.
  pub mark_student_picked-marks :
      resolve_school_id user none ≡ ok school
      → let before = w.db.trip_students in
        let result = mark_student_picked store now user trip student w in
        let after = result.1.db.trip_students in
        ((result.0 ≡ ok tt) ↔ (any (marks store trip student) before ≡ true))
        × All
            (λ x.
              marks store trip student x ≡ true
              → (x.status ≡ TripStudentStatus.picked) × (x.pickup_at ≡ some now))
            after
        × (filter (λ x. not (marks store trip student x)) after
            ≡ filter (λ x. not (marks store trip student x)) before)
  unfolding mark_student_picked
  mark_student_picked-marks own =
      let f : TripStudent → TripStudent =
        λ ts. record ts { status = TripStudentStatus.picked; pickup_at = some now } in
      let (all, same) =
        update_where-splits (marks store trip student) f
          (λ x. (x.status ≡ TripStudentStatus.picked) × (x.pickup_at ≡ some now)) w.db.trip_students
          (λ x. refl) (λ x. (refl, refl)) in
      elim (Bool-cases (any (marks store trip student) w.db.trip_students)) [
        | inl y ↦
            let e : (mark_student_picked store now user trip student w).1.db.trip_students
                ≡ update_where (marks store trip student) f w.db.trip_students =
              ground arith in
            ((λ h. y, λ h. ground arith), rw e all, rw e same)
        | inr n ↦
            let e : (mark_student_picked store now user trip student w).1.db.trip_students
                ≡ w.db.trip_students =
              ground arith in
            (
              (λ h. ground arith, λ h. ground arith),
              rw e (All-of_any-false _ _ w.db.trip_students n),
              rw e refl,
            )
      ]

-- What the position `v` is that answers the position in `dto` of the trip `t`, where `hit` says
-- whether the trip is throttled and `c` is the cache after the checks. `before` and `after` are the
-- states around the call. Either the trip is throttled and `v` is its cached position, and then
-- nothing is published, queued or stored; or the trip is not throttled or has no cached position,
-- and then `v` is the position of `dto`, which is published once, queued once and readable.
abbrev pub Answered :
    (redis : Redis Value)
    → (now later : ℕ) → Trip
    → TrackingUpdateDto
    → Bool × redis.Store
    → (before after : Live redis) → VanLocationBroadcast
    → Type 0
Answered redis now later t dto (hit, c) before after v =
    ((hit ≡ true)
      × (get_trip_location redis (now / 1000) t.school_id dto.trip_id c ≡ some v)
      × (after.published ≡ before.published)
      × (after.enqueued ≡ before.enqueued)
      × (after.world.cache ≡ c))
    ⊎ (((hit ≡ false) ⊎ (get_trip_location redis (now / 1000) t.school_id dto.trip_id c ≡ none))
        × (v ≡ broadcast_of t dto)
        × (after.published ≡ before.published ++ v ∷ [])
        × (after.enqueued ≡ before.enqueued ++ v ∷ [])
        × (get_trip_location redis later v.school_id v.trip_id after.world.cache ≡ some v))

-- Whether the trip is throttled after the position was admitted, and the cache then.
abbrev pub throttled_after :
    (redis : Redis Value)
    → Distance
    → (now again : ℕ) → TrackingUpdateDto
    → redis.Store
    → Bool × redis.Store
throttled_after redis distance now again dto c =
    should_throttle redis (now / 1000) dto.trip_id min_gps_interval_ms
      (assert_position redis distance now again dto.trip_id (position_of dto) c).1

cached_if-some :
    (redis : Redis Value) (hit : Bool) (now school trip : ℕ) (c : redis.Store)
    {v : VanLocationBroadcast}
    → cached_if redis hit now school trip c ≡ some v
    → (hit ≡ true) × (get_trip_location redis (now / 1000) school trip c ≡ some v)
cached_if-some redis true now school trip c h = (refl, h)
cached_if-some redis false now school trip c h = absurd (ground arith)

cached_if-none :
    (redis : Redis Value) (hit : Bool) (now school trip : ℕ) (c : redis.Store)
    → cached_if redis hit now school trip c ≡ none
    → (hit ≡ false) ⊎ (get_trip_location redis (now / 1000) school trip c ≡ none)
cached_if-none redis true now school trip c h = inr h
cached_if-none redis false now school trip c h = inl refl

module _ (prisma : Prisma) (redis : Redis Value) (distance : Distance) (now again : ℕ)
    (user : AuthUser) (dto : TrackingUpdateDto) (l : Live redis) where
  -- The trip that an admitted position is of, and what is known of its cached position.
  Admitted : Live redis → Trip → Option VanLocationBroadcast → Type 0
  Admitted after t cached =
      let (hit, c) = throttled_after redis distance now again dto l.world.cache in
      In t l.world.db.trips
      × (is_running user dto.trip_id t ≡ true)
      × (cached ≡ cached_if redis hit now t.school_id dto.trip_id c)
      × (after.published ≡ l.published)
      × (after.enqueued ≡ l.enqueued)
      × (after.world.cache ≡ c)

  admit-Admitted :
      (t : Trip) (cached : Option VanLocationBroadcast)
      → (admit_position prisma distance now again user dto l).0 ≡ ok (t, cached)
      → Admitted (admit_position prisma distance now again user dto l).1 t cached
  unfolding admit_position assert_active_driver_trip Admitted
  admit-Admitted t cached h =
      elim (Option-cases (prisma.find_first (is_running user dto.trip_id) l.world.db.trips)) [
        | inl n ↦ absurd (ground arith)
        | inr (x, found) ↦
            let (fits, here) =
              prisma.find_first_sound (is_running user dto.trip_id) l.world.db.trips found in
            let same : x ≡ t = ground arith in
            (
              subst (λ y. In y l.world.db.trips) same here,
              subst (λ y. is_running user dto.trip_id y ≡ true) same fits,
              ground arith,
              ground arith,
              ground arith,
              ground arith,
            )
      ]

  answer-Answered :
      (t : Trip) (cached : Option VanLocationBroadcast) (m : Live redis) (v : VanLocationBroadcast)
      (later : ℕ)
      → Admitted m t cached
      → later < now / 1000 + 120
      → (answer_position prisma now t dto cached m).0 ≡ ok v
      → Answered redis now later t dto
          (throttled_after redis distance now again dto l.world.cache)
          l
          (answer_position prisma now t dto cached m).1
          v
  unfolding answer_position Admitted
  answer-Answered t (some p) m v later (here, fits, e, published, enqueued, cache) in_time h =
      let same : p ≡ v = ground arith in
      let (hit, c) = throttled_after redis distance now again dto l.world.cache in
      let (throttled, found) = cached_if-some redis hit now t.school_id dto.trip_id c (sym e) in
      inl (throttled, found ∙ ap some same, published, enqueued, cache)
  answer-Answered t none m v later (here, fits, e, published, enqueued, cache) in_time h =
      let p = broadcast_of t dto in
      let same : p ≡ v = ground arith in
      let (hit, c) = throttled_after redis distance now again dto l.world.cache in
      let free = cached_if-none redis hit now t.school_id dto.trip_id c (sym e) in
      rw (← same) (
        inr (
          free,
          refl,
          rw published refl,
          rw enqueued refl,
          set_last_known_position-get redis (now / 1000) later t.id p m.world.cache in_time,
        ))

  abbrev after : Live redis
  after = (process_driver_location prisma distance now again user dto l).1

  -- A position that is accepted is one of a running trip. Either the trip is throttled and has a
  -- cached position, which is then the answer, and nothing is published, queued or stored; or the
  -- position itself is the answer, is published once, queued for storing once, and can be read as
  -- the trip's position for two minutes.
  pub process_driver_location-accepted :
      (v : VanLocationBroadcast) (later : ℕ)
      → (process_driver_location prisma distance now again user dto l).0 ≡ ok v
      → later < now / 1000 + 120
      → (t : Trip) × In t l.world.db.trips
        × (is_running user dto.trip_id t ≡ true)
        × Answered redis now later t dto
            (throttled_after redis distance now again dto l.world.cache)
            l
            after
            v
  unfolding process_driver_location Admitted
  process_driver_location-accepted v later h in_time =
      let m = admit_position prisma distance now again user dto in
      let k : Trip × Option VanLocationBroadcast → Action (Live redis) VanLocationBroadcast =
        λ x. answer_position prisma now x.0 dto x.1 in
      let ((t, cached), r, answered) = bind-eq-ok m k l h in
      let (here, fits, e, published, enqueued, cache) = admit-Admitted t cached r in
      let done =
        answer-Answered t cached (m l).1 v later (here, fits, e, published, enqueued, cache) in_time
          answered in
      (
        t,
        here,
        fits,
        subst
            (λ (x : Result VanLocationBroadcast × Live redis).
              Answered redis now later t dto
                (throttled_after redis distance now again dto l.world.cache) l x.1 v)
            (sym (bind-ok m k l (t, cached) r)) done,
      )
