-- ===== src/Tests/StaffRuns.antt =====
-- Runs of the services of drivers and parents on the small school, whose driver 5 is the user 50.
use school_van_tracking_saa.Prelude.{
  ◌+◌, ◌≡◌, ◌↔◌, refl, true, false, none, [], ◌∷◌, ok, conflict, license_exists, is_some,
}
use school_van_tracking_saa.Schema.{AuthUser, Driver}
use school_van_tracking_saa.Redis.{session, session_cache}
use school_van_tracking_saa.Tenant.Context.{resolve_school_id}
use school_van_tracking_saa.Subscription.Status.{status_of}
use school_van_tracking_saa.Subscription.Service.{
  get_resource_counts, get_subscription_status, assert_active_subscription, assert_within_limits,
}
use school_van_tracking_saa.Auth.Sessions.{get_cached_session}
use school_van_tracking_saa.Auth.Renewal.{validate}
use school_van_tracking_saa.Staff.Office.{Office, accounts_of, new_user}
use school_van_tracking_saa.Staff.Drivers.{CreateDriverDto, NewIds, create, remove}
use school_van_tracking_saa.Staff.Departure.{remove-access_iff}
use school_van_tracking_saa.Staff.Creation.{Undone, create-Undone}
use school_van_tracking_saa.Tests.Clients.{
  first_row, key_space, empty_space, RedisKey-discrete, pick, ℕ_discrete,
}
use school_van_tracking_saa.Tests.School.{admin, driver_user}
use school_van_tracking_saa.Tests.PlanRuns.{platform}
use school_van_tracking_saa.Tests.AccountRuns.{config}

abbrev office : Office key_space
office = record {
  platform = record platform {
    cache = key_space.setex empty_space 1 (session_cache 900) 900 (session driver_user);
  };
  users = new_user 50 1 88 5001 ∷ [];
  assignments = [];
  roles = [];
  preferences = [];
  auth_db = record { refresh_tokens = []; device_sessions = [] };
}

abbrev the_driver : Driver
the_driver = record {
  id = 5;
  school_id = 1;
  user_id = 50;
  license_number = 51;
  is_available = true;
  is_deleted = false;
}

remove-access_iff_example :
    ((r : AuthUser) × ((validate config first_row 3000
          (record { sub = 50; session_id = 900; jti = none })
          (accounts_of (remove first_row admin 5 office).1)).0
        ≡ ok r))
    ↔ (is_some (get_cached_session key_space 3 900 office.platform.cache) ≡ true)
unfolding remove resolve_school_id
remove-access_iff_example =
    remove-access_iff config first_row admin 5 1 3000 900 none office the_driver refl refl refl refl

abbrev same_license : CreateDriverDto
same_license = record { email = 77; password = 12; license_number = 51 }

abbrev ids : NewIds
ids = record { user_id = 60; profile_id = 61 }

create-Undone_example :
    Undone office (create first_row (λ n. n) (λ n. n + 5000) 2000 ids admin same_license office).1
unfolding create assert_within_limits assert_active_subscription get_subscription_status
    get_resource_counts status_of resolve_school_id RedisKey-discrete pick ℕ_discrete
create-Undone_example =
    create-Undone first_row (λ n. n) (λ n. n + 5000) 2000 ids admin same_license
      (conflict license_exists) office refl
