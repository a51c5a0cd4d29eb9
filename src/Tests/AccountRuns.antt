-- ===== src/Tests/AccountRuns.antt =====
-- Runs of logins and of changes of passwords.
use school_van_tracking_saa.Prelude.{
  ◌+◌, ◌≡◌, refl, inl, true, false, none, some, [], ◌∷◌, ok, err, bad_request, invalid_reset_token,
  arith, ◌==◌,
}
use school_van_tracking_saa.Schema.{AuthUser, RoleCode, SessionStatus}
use school_van_tracking_saa.Auth.Store.{DeviceSession}
use school_van_tracking_saa.Auth.Sessions.{upsert_device_session, cache_session}
use school_van_tracking_saa.Auth.Permissions.{resolve_primary_role}
use school_van_tracking_saa.Auth.LoginProtection.{
  build_key, assert_not_rate_limited, clear_attempts,
}
use school_van_tracking_saa.Auth.Accounts.{User, UserRoleAssignment, Accounts, find_user_for_login}
use school_van_tracking_saa.Auth.Grants.{get_user_roles, get_user_permissions, permissions_from}
use school_van_tracking_saa.Auth.Login.{
  AuthConfig, LoginDto, Fresh, LoginResult, login, build_auth_user, issue_session_for_user,
  assert_school_operational,
}
use school_van_tracking_saa.Auth.Renewal.{refresh}
use school_van_tracking_saa.Auth.RoundTrip.{login-refresh}
use school_van_tracking_saa.Auth.Passwords.{change_password, reset_password}
use school_van_tracking_saa.Auth.Recovery.{Refused, change_password-Refused, reset_password-once}
use school_van_tracking_saa.Tests.Clients.{
  first_row, key_space, empty_space, RedisKey-discrete, pick, ℕ_discrete,
}
use school_van_tracking_saa.Tests.Counting.{counters, three_in_15_minutes}

abbrev pub config : AuthConfig
config = record {
  limits = three_in_15_minutes;
  lock_duration_minutes = 30;
  refresh_ttl = 100000;
  session_ttl_seconds = 900;
  permissions_ttl_seconds = 300;
  password_reset_minutes = 60;
  hash = λ n. n + 1000;
  hash_password = λ n. n + 5000;
  verify = λ password stored. password + 5000 == stored;
  lower = λ n. n;
  web_device = λ n. n + 2000;
  impersonation_device = λ n. n + 3000;
  unknown_device = 0;
}

-- A user without a school, who has asked for a new password.
abbrev operator : User
operator = record {
  id = 1;
  school_id = none;
  email = 8;
  password_hash = 5042;
  is_active = true;
  failed_login_attempts = 2;
  locked_until = none;
  password_reset_token_hash = some 1600;
  password_reset_expires_at = some 50000;
  last_login_at = none;
  is_deleted = false;
}

abbrev phone : DeviceSession
phone = record {
  id = 33;
  school_id = none;
  user_id = 1;
  device_id = 4;
  refresh_token_id = none;
  status = SessionStatus.active;
  last_seen_at = 100;
  expires_at = 90000;
}

abbrev as_super_admin : UserRoleAssignment
as_super_admin = record { user_id = 1; role = RoleCode.super_admin; role_permissions = [] }

abbrev accounts : Accounts key_space
accounts = record {
  users = operator ∷ [];
  assignments = as_super_admin ∷ [];
  schools = [];
  subscriptions = [];
  auth = record {
    db = record { refresh_tokens = []; device_sessions = phone ∷ [] };
    cache = empty_space;
    audit_log = [];
  };
}

abbrev credentials : LoginDto
credentials = record { email = 8; password = 42; school_code = none; device_id = some 5 }

abbrev first_login : Fresh
first_login = record { token = record { text = 60; row_id = 61; new_family = 62 }; session_id = 63 }

abbrev renewed : Fresh
renewed = record { token = record { text = 70; row_id = 71; new_family = 72 }; session_id = 73 }

abbrev signed_in : LoginResult
signed_in = record {
  refresh_token = 60;
  user = record {
    id = 1;
    school_id = none;
    role = RoleCode.super_admin;
    session_id = 63;
    permissions = permissions_from (as_super_admin ∷ []);
    jti = none;
  };
}

operator-login :
    (login config first_row counters 2000 first_login credentials 9 accounts).0 ≡ ok signed_in
unfolding login build_auth_user issue_session_for_user assert_school_operational find_user_for_login
    get_user_roles get_user_permissions assert_not_rate_limited clear_attempts build_key
    resolve_primary_role upsert_device_session cache_session permissions_from RedisKey-discrete pick
    ℕ_discrete
operator-login = refl

login-refresh_example :
    (refresh config first_row 60000 renewed 60
      (login config first_row counters 2000 first_login credentials 9 accounts).1).0
    ≡ ok 70
login-refresh_example =
    login-refresh config first_row counters 2000 60000 first_login renewed credentials 9 accounts
      signed_in operator-login (omega arith) refl (λ id. ground arith)

abbrev operator_user : AuthUser
operator_user = record {
  id = 1;
  school_id = none;
  role = RoleCode.super_admin;
  session_id = 33;
  permissions = [];
  jti = some 55;
}

change_password-Refused_example :
    Refused config first_row 4000
      (record { sub = 1; session_id = 33; jti = some 55 })
      (change_password config first_row 3000 operator_user 42 43 accounts).1
unfolding change_password
change_password-Refused_example =
    change_password-Refused config first_row 3000 accounts operator_user 42 43 4000 phone (some 55)
      refl (inl refl) refl

reset_password-once_example :
    (reset_password config first_row 4000 600 44
      (reset_password config first_row 3000 600 43 accounts).1).0
    ≡ err (bad_request invalid_reset_token)
unfolding reset_password
reset_password-once_example =
    reset_password-once config first_row 3000 accounts 600 43 44 4000 (omega arith) refl
