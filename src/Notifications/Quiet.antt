-- ===== src/Notifications/Quiet.antt =====
-- A second evaluation of Notifications/Geofence while the cooldowns last.
use school_van_tracking_saa.Prelude.{
  ℕ, ◌+◌, ◌<◌, ◌≡◌, ◌⊎◌, ◌∙◌, refl, sym, ap, subst, Option, none, some, List, [], ◌∷◌, ok, inl, inr,
  arith, Prisma, Result, Option-cases, All, All-map, bind-ok, ◌≤◌,
}
use school_van_tracking_saa.Schema.{NotificationType}
use school_van_tracking_saa.Redis.{Redis, RedisKey, Value, flag, cooldown}
use school_van_tracking_saa.Redis.Counters.{Counters}
use school_van_tracking_saa.Notifications.Dispatcher.{NotifyWorld}
use school_van_tracking_saa.Notifications.Nearby.{same_key_or_other, dispatch-get, dispatch-ok}
use school_van_tracking_saa.Notifications.Geofence.{
  GeofenceJob, ProximityResult, Alert, alert_of, set_geofence_cooldown, input_of,
  dispatch_proximity, evaluate,
}

module _ (prisma : Prisma) {redis : Redis Value} (counters : Counters redis)
    (scope : ℕ → ℕ → NotificationType → ℕ) (new_id : ℕ → ℕ) (job : GeofenceJob)
    (now later : ℕ) where
  abbrev key : ℕ → NotificationType → RedisKey
  key student type = cooldown job.school_id job.trip_id student type

  -- A cooldown runs from now until later.
  abbrev Running : redis.Store → ℕ → NotificationType → Type 0
  Running c student type =
      (redis.get c now (key student type) ≡ some flag)
      × (redis.get c later (key student type) ≡ some flag)

  abbrev Fresh : redis.Store → ℕ → NotificationType → Type 0
  Fresh c student type = (redis.get c now (key student type) ≡ none) ⊎ Running c student type

  abbrev marked : redis.Store → ProximityResult → Alert → redis.Store
  marked c row alert =
      (set_geofence_cooldown redis now job.school_id job.trip_id row.student_id alert.type
        alert.cooldown_seconds c).1

  abbrev step : ProximityResult → Alert → NotifyWorld redis → NotifyWorld redis
  step row alert w = (dispatch_proximity prisma counters scope new_id now job row (some alert) w).1

  -- The cooldowns after a step are those after the mark.
  step-get :
      (row : ProximityResult) (alert : Alert) (t student : ℕ) (type : NotificationType)
      (w : NotifyWorld redis)
      → redis.get (step row alert w).cache t (key student type)
        ≡ redis.get (marked w.cache row alert) t (key student type)
  unfolding dispatch_proximity set_geofence_cooldown
  step-get row alert t student type w =
      elim (Option-cases (redis.get w.cache now (key row.student_id alert.type))) [
        | inr (v, e) ↦ ground arith
        | inl e ↦
            let w1 : NotifyWorld redis = record w {
              cache =
                  redis.setex w.cache now (key row.student_id alert.type) alert.cooldown_seconds
                    flag;
            } in
            let input = input_of scope job row alert in
            let (o, done) = dispatch-ok prisma counters now (new_id row.student_id) input w1 in
            let kept =
              dispatch-get prisma counters now (new_id row.student_id) t job.school_id job.trip_id
                student type input w1 in
            ground arith
      ]

  pure_ok :
      (row : ProximityResult) (w : NotifyWorld redis)
      → (dispatch_proximity prisma counters scope new_id now job row none w).0 ≡ ok tt
  unfolding dispatch_proximity
  pure_ok row w = refl

  step-ok :
      (row : ProximityResult) (alert : Alert) (w : NotifyWorld redis)
      → (dispatch_proximity prisma counters scope new_id now job row (some alert) w).0 ≡ ok tt
  unfolding dispatch_proximity set_geofence_cooldown
  step-ok row alert w =
      elim (Option-cases (redis.get w.cache now (key row.student_id alert.type))) [
        | inr (v, e) ↦ ground arith
        | inl e ↦
            let w1 : NotifyWorld redis = record w {
              cache =
                  redis.setex w.cache now (key row.student_id alert.type) alert.cooldown_seconds
                    flag;
            } in
            let input = input_of scope job row alert in
            let (o, done) = dispatch-ok prisma counters now (new_id row.student_id) input w1 in
            ground arith
      ]

  -- The mark of a step makes its own key run, if no cooldown was running there.
  marked-own :
      (row : ProximityResult) (alert : Alert) (c : redis.Store)
      → now < now + alert.cooldown_seconds
      → later < now + alert.cooldown_seconds
      → Fresh c row.student_id alert.type
      → Running (marked c row alert) row.student_id alert.type
  unfolding set_geofence_cooldown
  marked-own row alert c long in_time (inr (a, b)) = (ground arith, ground arith)
  marked-own row alert c long in_time (inl e) =
      let k = key row.student_id alert.type in
      let same : marked c row alert ≡ redis.setex c now k alert.cooldown_seconds flag =
        ground arith in
      rw same (
        redis.get-setex_self c now now alert.cooldown_seconds k flag long,
        redis.get-setex_self c now later alert.cooldown_seconds k flag in_time,
      )

  -- It leaves a cooldown that runs.
  marked-Running :
      (row : ProximityResult) (alert : Alert) (student : ℕ) (type : NotificationType)
      (c : redis.Store)
      → Running c student type
      → Running (marked c row alert) student type
  unfolding set_geofence_cooldown
  marked-Running row alert student type c (a, b) =
      elim (Option-cases (redis.get c now (key row.student_id alert.type))) [
        | inr (v, e) ↦ (ground arith, ground arith)
        | inl e ↦
            let k = key row.student_id alert.type in
            let same : marked c row alert ≡ redis.setex c now k alert.cooldown_seconds flag =
              ground arith in
            elim (same_key_or_other job.school_id job.trip_id student row.student_id type
              alert.type) [
                | inl q ↦ absurd (ground (arith, ap (redis.get c now) q))
                | inr ne ↦ rw same (
                  redis.get-setex_ne c now now alert.cooldown_seconds k (key student type) flag ne
                      ∙ a,
                  redis.get-setex_ne c now later alert.cooldown_seconds k (key student type) flag ne
                      ∙ b,
                )
              ]
      ]

  marked-Fresh :
      (row : ProximityResult) (alert : Alert) (student : ℕ) (type : NotificationType)
      (c : redis.Store)
      → now < now + alert.cooldown_seconds
      → later < now + alert.cooldown_seconds
      → Fresh c student type
      → Fresh (marked c row alert) student type
  unfolding set_geofence_cooldown
  marked-Fresh row alert student type c long in_time (inr r) =
      inr (marked-Running row alert student type c r)
  marked-Fresh row alert student type c long in_time (inl e) =
      elim (same_key_or_other job.school_id job.trip_id student row.student_id type alert.type) [
        | inl q ↦
            let own =
              marked-own row alert c long in_time (inl (ap (redis.get c now) (sym q) ∙ e)) in
            inr (
              subst
                (λ k.
                  (redis.get (marked c row alert) now k ≡ some flag)
                  × (redis.get (marked c row alert) later k ≡ some flag))
                (sym q) own)
        | inr ne ↦ elim (Option-cases (redis.get c now (key row.student_id alert.type))) [
          | inr (v, e') ↦ inl (ground arith)
          | inl e' ↦
              let same : marked c row alert
                  ≡ redis.setex c now (key row.student_id alert.type) alert.cooldown_seconds flag =
                ground arith in
              inl (
                rw same (
                  redis.get-setex_ne c now now alert.cooldown_seconds
                    (key row.student_id alert.type) (key student type) flag ne
                  ∙ e))
        ]
      ]

  -- Of the alert that a row asks for, if it asks for one.
  abbrev Asks : (NotificationType → Type 0) → ProximityResult → Type 0
  Asks P row = (alert : Alert) → alert_of job row.distance ≡ some alert → P alert.type

  alert_long :
      (distance : ℕ) (alert : Alert)
      → alert_of job distance ≡ some alert
      → 1800 ≤ alert.cooldown_seconds
  alert_long distance alert e = ground arith

  abbrev after : ProximityResult → Option Alert → NotifyWorld redis → NotifyWorld redis
  after row alert w = (dispatch_proximity prisma counters scope new_id now job row alert w).1

  evaluate-cons :
      (row : ProximityResult) (rest : List ProximityResult) (w : NotifyWorld redis)
      → evaluate prisma counters scope new_id now job (row ∷ rest) w
        ≡ evaluate prisma counters scope new_id now job rest
            (after row (alert_of job row.distance) w)
  unfolding evaluate
  evaluate-cons row rest w =
      bind-ok
        (dispatch_proximity prisma counters scope new_id now job row (alert_of job row.distance))
        (λ _. evaluate prisma counters scope new_id now job rest) w tt
        (answers (alert_of job row.distance))
    where
      answers :
          (o : Option Alert)
          → (dispatch_proximity prisma counters scope new_id now job row o w).0 ≡ ok tt
      answers none = pure_ok row w
      answers (some alert) = step-ok row alert w

  after-Running :
      (row : ProximityResult) (o : Option Alert) (student : ℕ) (type : NotificationType)
      (w : NotifyWorld redis)
      → Running w.cache student type
      → Running (after row o w).cache student type
  unfolding dispatch_proximity
  after-Running row none student type w r = r
  after-Running row (some alert) student type w r =
      let (a, b) = marked-Running row alert student type w.cache r in
      (step-get row alert now student type w ∙ a, step-get row alert later student type w ∙ b)

  after-Fresh :
      (row : ProximityResult) (o : Option Alert) (student : ℕ) (type : NotificationType)
      (w : NotifyWorld redis)
      → later < now + 1800
      → alert_of job row.distance ≡ o
      → Fresh w.cache student type
      → Fresh (after row o w).cache student type
  unfolding dispatch_proximity
  after-Fresh row none student type w in_time e f = f
  after-Fresh row (some alert) student type w in_time e f =
      let long = alert_long row.distance alert e in
      elim (marked-Fresh row alert student type w.cache (omega arith) (omega arith) f) [
        | inl missing ↦ inl (step-get row alert now student type w ∙ missing)
        | inr (a, b) ↦
            inr (
              step-get row alert now student type w ∙ a,
              step-get row alert later student type w ∙ b,
            )
      ]

  after-marks :
      (row : ProximityResult) (alert : Alert) (w : NotifyWorld redis)
      → later < now + 1800
      → alert_of job row.distance ≡ some alert
      → Fresh w.cache row.student_id alert.type
      → Running (step row alert w).cache row.student_id alert.type
  after-marks row alert w in_time e f =
      let long = alert_long row.distance alert e in
      let (a, b) = marked-own row alert w.cache (omega arith) (omega arith) f in
      (
        step-get row alert now row.student_id alert.type w ∙ a,
        step-get row alert later row.student_id alert.type w ∙ b,
      )

  evaluate-Running :
      (rows : List ProximityResult) (student : ℕ) (type : NotificationType) (w : NotifyWorld redis)
      → Running w.cache student type
      → Running (evaluate prisma counters scope new_id now job rows w).1.cache student type
  unfolding evaluate
  evaluate-Running [] student type w r = r
  evaluate-Running (row ∷ rest) student type w r =
      let o = alert_of job row.distance in
      rw (evaluate-cons row rest w)
        (evaluate-Running rest student type (after row o w) (after-Running row o student type w r))

  -- The cooldown of each row's alert runs after the step that gave p.
  abbrev Marked :
      ProximityResult → List ProximityResult → Result (Unit {0}) × NotifyWorld redis → Type 0
  Marked row rest p =
      Asks (Running p.1.cache row.student_id) row
      × All (λ r. Asks (Running p.1.cache r.student_id) r) rest

  -- After an evaluation the cooldown of each row's alert runs.
  evaluate-marks :
      (rows : List ProximityResult) (w : NotifyWorld redis)
      → later < now + 1800
      → All (λ row. Asks (Fresh w.cache row.student_id) row) rows
      → let w' = (evaluate prisma counters scope new_id now job rows w).1 in
        All (λ row. Asks (Running w'.cache row.student_id) row) rows
  evaluate-marks [] w in_time fresh = tt
  evaluate-marks (row ∷ rest) w in_time (fresh, others) =
      let o = alert_of job row.distance in
      let w1 = after row o w in
      let still =
        All-map (λ r. Asks (Fresh w.cache r.student_id) r)
          (λ r. Asks (Fresh w1.cache r.student_id) r) rest
          (λ r f alert e. after-Fresh row o r.student_id alert.type w in_time refl (f alert e))
          others in
      subst (Marked row rest) (sym (evaluate-cons row rest w)) (
        λ alert e. evaluate-Running rest row.student_id alert.type w1 (
            subst (λ x. Running (after row x w).cache row.student_id alert.type) (sym e)
              (after-marks row alert w in_time e (fresh alert e))),
        evaluate-marks rest w1 in_time still,
      )

module _ (prisma : Prisma) {redis : Redis Value} (counters : Counters redis)
    (scope : ℕ → ℕ → NotificationType → ℕ) (new_id : ℕ → ℕ) (job : GeofenceJob) where
  -- While the cooldown of each row's alert runs, an evaluation does nothing.
  evaluate-idle :
      (now : ℕ) (rows : List ProximityResult) (w : NotifyWorld redis)
      → All
          (λ row.
            Asks prisma counters scope new_id job now now
              (λ type.
                redis.get w.cache now (cooldown job.school_id job.trip_id row.student_id type)
                ≡ some flag)
              row)
          rows
      → evaluate prisma counters scope new_id now job rows w ≡ (ok tt, w)
  unfolding evaluate dispatch_proximity set_geofence_cooldown
  evaluate-idle now [] w a = refl
  evaluate-idle now (row ∷ rest) w (runs, others) =
      let again = evaluate-idle now rest w others in
      elim (Option-cases (alert_of job row.distance)) [
        | inl e ↦ ground arith
        | inr (alert, e) ↦ let r = runs alert e in ground arith
      ]

  -- Evaluated again within half an hour, for students that are at the same distances, a geofence job
  -- sends nothing and changes nothing, if no cooldown of the alerts was running at first: each alert
  -- is tried once, whether or not it was queued.
  pub evaluate-again :
      (now later : ℕ) (rows : List ProximityResult) (w : NotifyWorld redis)
      → later < now + 1800
      → All
          (λ row.
            (alert : Alert)
            → alert_of job row.distance ≡ some alert
            → redis.get w.cache now (cooldown job.school_id job.trip_id row.student_id alert.type)
              ≡ none)
          rows
      → let w' = (evaluate prisma counters scope new_id now job rows w).1 in
        evaluate prisma counters scope new_id later job rows w' ≡ (ok tt, w')
  evaluate-again now later rows w in_time idle =
      let w' = (evaluate prisma counters scope new_id now job rows w).1 in
      let fresh =
        All-map
          (λ (row : ProximityResult).
            (alert : Alert)
            → alert_of job row.distance ≡ some alert
            → redis.get w.cache now (cooldown job.school_id job.trip_id row.student_id alert.type)
              ≡ none)
          (λ (row : ProximityResult).
            Asks prisma counters scope new_id job now later
              (Fresh prisma counters scope new_id job now later w.cache row.student_id) row)
          rows (λ row f alert e. inl (f alert e)) idle in
      let marks = evaluate-marks prisma counters scope new_id job now later rows w in_time fresh in
      evaluate-idle later rows w' (
        All-map
          (λ (row : ProximityResult).
            Asks prisma counters scope new_id job now later
              (Running prisma counters scope new_id job now later w'.cache row.student_id) row)
          (λ (row : ProximityResult).
            Asks prisma counters scope new_id job later later
              (λ type.
                redis.get w'.cache later (cooldown job.school_id job.trip_id row.student_id type)
                ≡ some flag)
              row)
          rows (λ row f alert e. (f alert e).1) marks)
