-- ===== src/Tests/TrackingRuns.antt =====
-- Runs of the tracking services on the small school.
use school_van_tracking_saa.Prelude.{
  record_not_found, All, List, filter, not, In, ℕ, ◌≡◌, ◌↔◌, refl, true, false, none, some, [], ◌∷◌,
  ◌++◌, arith, ok, err, bad_request, gps_rejected, ℤ, any, ◌&&◌, ◌||◌, ◌==◌,
}
use school_van_tracking_saa.Schema.{AuthUser, in_progress, pickup}
use school_van_tracking_saa.Redis.{GpsIntegrityContext, VanLocationBroadcast}
use school_van_tracking_saa.Tenant.Context.{resolve_school_id}
use school_van_tracking_saa.Trips.Session.{assert_active_driver_trip}
use school_van_tracking_saa.Tracking.Cache.{should_throttle}
use school_van_tracking_saa.Tracking.Integrity.{
  Distance, GpsIntegrityInput, evaluate, evaluate-valid, is_too_fast, is_blurred, is_teleport,
  is_future, assert_position, load_last_sample, sample_of, assert_position-sample, save_last_sample,
}
use school_van_tracking_saa.Tracking.Batch.{
  Batches, Run, start, enqueued, ticked, threw, failed, flush, enqueue, anywhere, Run-anywhere,
}
use school_van_tracking_saa.Tracking.Drain.{drain, drain-stored}
use school_van_tracking_saa.Tracking.Service.{
  marks, TrackingUpdateDto, Live, mark_student_picked, process_driver_location, admit_position,
  answer_position, broadcast_of,
}
use school_van_tracking_saa.Tracking.Positions.{
  throttled_after, Answered, mark_student_picked-marks, process_driver_location-accepted,
}
use school_van_tracking_saa.Trips.Session.{is_running}
use school_van_tracking_saa.Schema.{Trip, TripStudent, TripStudentStatus}
use school_van_tracking_saa.Tenant.Store.{tenant_store}
use school_van_tracking_saa.Tests.Clients.{
  first_row, key_space, empty_space, RedisKey-discrete, pick, ℕ_discrete,
}
use school_van_tracking_saa.Tests.School.{driver_user, morning, school_with, world_with, trip_of}

abbrev flat : Distance
flat a b c d = 500

abbrev fix : GpsIntegrityInput
fix = record {
  latitude = ℤ.pos 5;
  longitude = ℤ.pos 6;
  speed = 40000;
  accuracy = some 8000;
  timestamp = 1000000;
  is_mocked = false;
}

abbrev first_context : GpsIntegrityContext
first_context = record { last_latitude = none; last_longitude = none; last_timestamp = none }

evaluate-valid_example :
    (evaluate flat 1000500 fix first_context).valid
    ≡ not (
        fix.is_mocked
        || (is_too_fast fix && is_blurred fix)
        || (is_teleport flat fix first_context
            && (is_too_fast fix || is_blurred fix || is_future 1000500 fix)))
evaluate-valid_example = evaluate-valid flat 1000500 fix first_context

assert_position-sample_example :
    let last = load_last_sample key_space 1000 10 empty_space in
    (((assert_position key_space flat 1000500 1000600 10 fix empty_space).0
        ≡ err (bad_request gps_rejected))
      ↔ (((evaluate flat 1000500 fix last).valid ≡ false)
          × ((evaluate flat 1000600 fix last).valid ≡ false)))
    × (load_last_sample key_space 2000 10
          (assert_position key_space flat 1000500 1000600 10 fix empty_space).1
        ≡ sample_of fix)
assert_position-sample_example =
    assert_position-sample key_space flat 1000500 1000600 2000 10 fix empty_space (omega arith)

-- Two items are enqueued, the timer ticks, and storing them fails.
abbrev two_queued : Batches ℕ
two_queued = enqueue 4 (enqueue 3 (record { queue = []; in_flight = []; stored = [] }))

abbrev batch_run : Run (3 ∷ 4 ∷ []) (flush two_queued)
batch_run = ticked (enqueued {items = 3 ∷ []} 4 (enqueued {items = []} 3 start))

Run-anywhere_example : anywhere (λ n. n == 3) (flush two_queued) ≡ 1
Run-anywhere_example = Run-anywhere (λ n. n == 3) (3 ∷ 4 ∷ []) (flush two_queued) batch_run

-- The batch that failed is put back, and two later ticks store it.
abbrev after_failure : Batches ℕ
after_failure = record { queue = 3 ∷ 4 ∷ []; in_flight = []; stored = [] }

drain-stored_example :
    Run (3 ∷ 4 ∷ []) (drain 2 after_failure)
    × ((drain 2 after_failure).queue ≡ [])
    × ((drain 2 after_failure).in_flight ≡ [])
    × ((drain 2 after_failure).stored ≡ [] ++ 3 ∷ 4 ∷ [])
unfolding flush enqueue failed
drain-stored_example =
    drain-stored (3 ∷ 4 ∷ []) after_failure 2 (threw [] (3 ∷ 4 ∷ []) [] batch_run) refl
      (omega arith)

-- The rows after the driver of school 1 has marked student 6, in a request without a tenant.
abbrev boarded : List TripStudent
boarded =
    (mark_student_picked {redis = key_space} none 5000 driver_user 10 6
      (world_with morning)).1.db.trip_students

mark_student_picked-marks_example :
    (((mark_student_picked {redis = key_space} none 5000 driver_user 10 6 (world_with morning)).0
        ≡ ok tt)
      ↔ (any (marks none 10 6) (school_with morning).trip_students ≡ true))
    × All
        (λ x.
          marks none 10 6 x ≡ true
          → (x.status ≡ TripStudentStatus.picked) × (x.pickup_at ≡ some 5000))
        boarded
    × (filter (λ x. not (marks none 10 6 x)) boarded
        ≡ filter (λ x. not (marks none 10 6 x)) (school_with morning).trip_students)
unfolding resolve_school_id
mark_student_picked-marks_example =
    mark_student_picked-marks {redis = key_space} none 5000 driver_user 10 6 1 (world_with morning)
      refl

abbrev other_driver : AuthUser
other_driver = record driver_user { school_id = some 2 }

-- A driver of school 2 marks the student of school 1: when the middleware runs there is no user yet.
foreign_marked :
    (mark_student_picked {redis = key_space}
      (tenant_store none none)
      5000
      other_driver
      10
      6
      (world_with morning)).0
    ≡ ok tt
unfolding mark_student_picked resolve_school_id
foreign_marked = refl

-- If the middleware saw the user, the update would find no row.
foreign_refused :
    (mark_student_picked {redis = key_space}
      (tenant_store (some other_driver) none)
      5000
      other_driver
      10
      6
      (world_with morning)).0
    ≡ err record_not_found
unfolding mark_student_picked resolve_school_id
foreign_refused = refl

abbrev update : TrackingUpdateDto
update = record {
  trip_id = 12;
  latitude = ℤ.pos 5;
  longitude = ℤ.pos 6;
  speed = 40000;
  heading = 90;
  accuracy = some 8000;
  timestamp = 1000000;
  is_mocked = false;
}

abbrev on_the_way : Live key_space
on_the_way = record {
  world = world_with (trip_of 12 pickup in_progress ∷ []);
  published = [];
  enqueued = [];
}

abbrev sent : VanLocationBroadcast
sent = broadcast_of (trip_of 12 pickup in_progress) update

process_driver_location-accepted_example :
    (t : Trip) × In t (trip_of 12 pickup in_progress ∷ [])
    × (is_running driver_user 12 t ≡ true)
    × Answered key_space 1000500 1100 t update
        (throttled_after key_space flat 1000500 1000600 update empty_space)
        on_the_way
        (process_driver_location first_row {redis = key_space} flat 1000500 1000600 driver_user
          update on_the_way).1
        sent
unfolding process_driver_location admit_position answer_position assert_active_driver_trip
    assert_position evaluate load_last_sample should_throttle save_last_sample RedisKey-discrete
    pick ℕ_discrete
process_driver_location-accepted_example =
    process_driver_location-accepted first_row key_space flat 1000500 1000600 driver_user update
      on_the_way sent 1100 refl (omega arith)
