-- ===== src/Tests/VanRuns.antt =====
-- Runs of the service of vans on the small school.
use school_van_tracking_saa.Prelude.{
  ℕ, ◌+◌, ◌≤◌, ◌≡◌, refl, inl, true, false, none, some, List, [], ◌∷◌, ok, arith, count, length,
}
use school_van_tracking_saa.Schema.{Van, pickup}
use school_van_tracking_saa.Redis.{SubscriptionStatusView, status_view, subscription_status}
use school_van_tracking_saa.Tenant.Context.{resolve_school_id}
use school_van_tracking_saa.Fleet.Assignment.{rides}
use school_van_tracking_saa.Subscription.Store.{Platform}
use school_van_tracking_saa.Vans.Service.{CreateVanDto, UpdateVanDto, update_van}
use school_van_tracking_saa.Vans.Capacity.{update_van-seats}
use school_van_tracking_saa.Vans.Limits.{cached_status, add_vans, add_vans-ok}
use school_van_tracking_saa.Tests.Clients.{
  first_row, key_space, empty_space, RedisKey-discrete, pick, ℕ_discrete,
}
use school_van_tracking_saa.Tests.School.{admin}
use school_van_tracking_saa.Tests.PlanRuns.{platform, view}

own_school : resolve_school_id admin none ≡ ok 1
unfolding resolve_school_id
own_school = refl

abbrev smaller : UpdateVanDto
smaller = record { registration_no = none; capacity = some 9; is_active = none }

abbrev big_van : Van
big_van = record {
  id = 3;
  school_id = 1;
  registration_no = 33;
  capacity = 20;
  is_active = true;
  is_deleted = false;
}

update_van-seats_example :
    count (rides 1 2) (update_van first_row admin 3 smaller platform).1.fleet.students ≤ 9
unfolding update_van resolve_school_id
update_van-seats_example =
    update_van-seats first_row admin 3 1 9 smaller platform big_van own_school refl refl
      (omega arith) (omega arith) refl
      (record {
        id = 2;
        school_id = 1;
        van_id = some 3;
        route_code = 21;
        direction = pickup;
        is_active = true;
        is_deleted = false;
      })
      (inl refl) refl

-- A plan with three vans, of which two are in use.
abbrev three_vans : SubscriptionStatusView
three_vans = record view { features = record view.features { max_vans = 3 } }

abbrev with_status : Platform key_space
with_status = record platform {
  cache = key_space.setex empty_space 1 (subscription_status 1) 300 (status_view three_vans);
}

abbrev two_more : List (ℕ × CreateVanDto)
two_more =
    (41, record { registration_no = 35; capacity = 8 })
    ∷ (42, record { registration_no = 36; capacity = 8 })
    ∷ []

status_there : cached_status first_row {redis = key_space} 2000 1 with_status ≡ some three_vans
unfolding RedisKey-discrete pick ℕ_discrete
status_there = refl

add_vans-ok_example :
    let (answer, w') = add_vans first_row 2000 1 admin two_more with_status in
    (answer ≡ ok tt) × (length w'.fleet.vans ≡ 2 + 2)
add_vans-ok_example =
    add_vans-ok first_row 2000 1 admin two_more three_vans with_status own_school status_there refl
      (omega arith) (refl, (refl, tt))
