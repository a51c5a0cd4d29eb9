-- ===== src/Tests/NotifyRuns.antt =====
-- Runs of the rate limit and of the dispatcher of notifications.
use school_van_tracking_saa.Prelude.{ℕ, ◌+◌, ◌*◌, ◌≡◌, refl, none, some, ok, [], ◌∷◌, List, arith}
use school_van_tracking_saa.Schema.{NotificationType, van_within_500m}
use school_van_tracking_saa.Notifications.Dispatcher.{DispatchNotificationInput, NotifyWorld}
use school_van_tracking_saa.Notifications.Geofence.{GeofenceJob, ProximityResult, evaluate}
use school_van_tracking_saa.Notifications.Quiet.{evaluate-again}
use school_van_tracking_saa.Tests.Clients.{first_row, key_space, empty_space}
use school_van_tracking_saa.Tests.Counting.{counters}

abbrev more_calls : List ℕ
more_calls = 120 ∷ 160 ∷ []

abbrev near_home : DispatchNotificationInput
near_home = record {
  school_id = 1;
  user_id = 7;
  type = van_within_500m;
  parent_id = some 3;
  trip_id = some 20;
  dedup_scope = some 2011;
  dedup_cooldown_seconds = none;
}

abbrev quiet : NotifyWorld key_space
quiet = record { preferences = []; notifications = []; push_queue = []; cache = empty_space }

abbrev job : GeofenceJob
job = record { school_id = 1; trip_id = 20; radius_1km = 1000000; radius_500m = 500000 }

abbrev nearby : List ProximityResult
nearby =
    record { student_id = 6; parent_id = 3; parent_user_id = 7; distance = 420000 }
    ∷ record { student_id = 8; parent_id = 4; parent_user_id = 9; distance = 2500000 }
    ∷ []

abbrev scope : ℕ → ℕ → NotificationType → ℕ
scope trip student type = trip * 100 + student

evaluate-again_example :
    let w' =
      (evaluate first_row {redis = key_space} counters scope
        (λ s. s + 900)
        100
        job
        nearby
        quiet).1 in
    evaluate first_row {redis = key_space} counters scope (λ s. s + 900) 700 job nearby w'
    ≡ (ok tt, w')
evaluate-again_example =
    evaluate-again first_row {redis = key_space} counters scope (λ s. s + 900) job 100 700 nearby
      quiet (omega arith) ((λ alert e. refl), ((λ alert e. refl), tt))
