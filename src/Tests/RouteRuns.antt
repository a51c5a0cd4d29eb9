-- ===== src/Tests/RouteRuns.antt =====
-- Runs of the service of routes on the small school, whose route 2 has the stops 81 and 82.
use school_van_tracking_saa.Prelude.{
  ℕ, ◌≤◌, ◌≡◌, ◌≢◌, refl, true, false, none, some, List, [], ◌∷◌, ok, arith, any, ◌==◌, count,
}
use school_van_tracking_saa.Schema.{RouteStop, pickup}
use school_van_tracking_saa.Redis.{RouteView}
use school_van_tracking_saa.Tenant.Context.{resolve_school_id}
use school_van_tracking_saa.Fleet.World.{World}
use school_van_tracking_saa.Routes.Rows.{CreateRouteStopDto, stops_of, holds}
use school_van_tracking_saa.Routes.Service.{add_stop, reorder_stops, find_one}
use school_van_tracking_saa.Routes.Stops.{remove_stops, reorder_stops-same, add_stop-removed}
use school_van_tracking_saa.Routes.Effects.{Coherent}
use school_van_tracking_saa.Routes.Coherence.{none_yet, found, stop_added, Calls-Coherent}
use school_van_tracking_saa.Tests.Clients.{
  first_row, key_space, RedisKey-discrete, pick, ℕ_discrete,
}
use school_van_tracking_saa.Tests.School.{admin, morning, school_with, world_with}

abbrev in_order : List ℕ
in_order = 81 ∷ 82 ∷ []

abbrev the_view : RouteView
the_view = record {
  route = record {
    id = 2;
    school_id = 1;
    van_id = some 3;
    route_code = 21;
    direction = pickup;
    is_active = true;
    is_deleted = false;
  };
  stops = (school_with morning).stops;
  students = 6 ∷ [];
  student_count = 1;
  stop_count = 2;
}

distinct_stops : (id : ℕ) → count (λ (s : RouteStop). s.id == id) (school_with morning).stops ≤ 1
distinct_stops id = ground arith

both_held : (i : ℕ) → 1 ≤ i → i ≤ 2 → any (holds 2 i) (school_with morning).stops ≡ true
both_held i l m = ground arith

reordered_view :
    (reorder_stops first_row {redis = key_space} 4000 admin 2 in_order (world_with morning)).0
    ≡ ok the_view
unfolding reorder_stops find_one stops_of resolve_school_id RedisKey-discrete pick ℕ_discrete
reordered_view = refl

reorder_stops-same_example :
    (reorder_stops first_row {redis = key_space} 4000 admin 2 in_order (world_with morning)).1.db
    ≡ school_with morning
reorder_stops-same_example =
    reorder_stops-same first_row {redis = key_space} 4000 admin 2 in_order (world_with morning)
      the_view distinct_stops both_held reordered_view

abbrev third : CreateRouteStopDto
third = record { stop_order = 2; stop_latitude = none; stop_longitude = none }

add_stop-removed_example :
    (add_stop first_row {redis = key_space} 83 admin 2 third
      (remove_stops first_row admin 2 (82 ∷ 81 ∷ []) (world_with morning))).0
    ≢ ok 83
add_stop-removed_example =
    add_stop-removed first_row {redis = key_space} 83 admin 2 (82 ∷ 81 ∷ []) third
      (world_with morning) 83 refl

abbrev fourth : CreateRouteStopDto
fourth = record { stop_order = 3; stop_latitude = none; stop_longitude = none }

abbrev looked_up : World key_space
looked_up = (find_one first_row 4000 admin 2 (world_with morning)).1

own_school : resolve_school_id admin none ≡ ok 1
unfolding resolve_school_id
own_school = refl

Calls-Coherent_example :
    Coherent key_space 1 (add_stop first_row {redis = key_space} 83 admin 2 fourth looked_up).1
Calls-Coherent_example =
    Calls-Coherent first_row key_space 1 (world_with morning)
      (add_stop first_row {redis = key_space} 83 admin 2 fourth looked_up).1
      (stop_added 83 admin 2 fourth own_school (found 4000 admin 2 own_school none_yet))
      (λ t route v h. absurd (ground arith))
