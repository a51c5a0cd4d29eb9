-- ===== src/Auth/Login.antt =====
-- Logins of services/api/src/auth/services/auth.service.ts: `login` and
-- `issueSessionForUser`, whose steps `login` makes too. Access tokens, which are signed and stored
-- nowhere, are left out: they are made from the answer's user. Times are in milliseconds.
use school_van_tracking_saa.Prelude.{
  ℕ, ◌+◌, ◌*◌, ◌/◌, Bool, true, false, Option, none, some, Prisma, Action, pure, throw, throw_if,
  gets, find, ◌>>=◌, ◌>>◌, ◌==◌, leb, not, ◌||◌, get_or, if◌then◌else◌, unauthorized,
  invalid_credentials, account_locked, school_not_found, school_inactive, subscription_inactive,
}
use school_van_tracking_saa.Schema.{
  AuthUser, BillingStatus, billing_eq, AuditAction, AuditEntry, EntityType,
}
use school_van_tracking_saa.Redis.{Redis, Value}
use school_van_tracking_saa.Redis.Counters.{Counters}
use school_van_tracking_saa.Subscription.Store.{School, SchoolSubscription}
use school_van_tracking_saa.Auth.Tokens.{FreshToken, issue_refresh_token}
use school_van_tracking_saa.Auth.Sessions.{
  on_auth_db, on_auth_cache, audit, upsert_device_session, cache_session,
}
use school_van_tracking_saa.Auth.LoginProtection.{
  Limits, assert_not_rate_limited, record_failed_attempt, clear_attempts,
}
use school_van_tracking_saa.Auth.Permissions.{resolve_primary_role}
use school_van_tracking_saa.Auth.Accounts.{
  User, Accounts, subscriptions_of, on_auth, on_keys, update_user, find_school_by_id,
  find_user_for_login, is_school_login_allowed, clear_failures, count_failure, is_after,
}
use school_van_tracking_saa.Auth.Grants.{get_user_roles, get_user_permissions}

-- The configuration, and the functions of crypto and bcrypt. `verify` compares a password with a
-- hash; `web_device` is the device `web-<address>` of a login that names none.
pub record AuthConfig : Type 0 where
  pub limits : Limits
  pub lock_duration_minutes : ℕ
  pub refresh_ttl : ℕ
  pub session_ttl_seconds : ℕ
  pub permissions_ttl_seconds : ℕ
  pub password_reset_minutes : ℕ
  pub hash : ℕ → ℕ
  pub hash_password : ℕ → ℕ
  pub verify : ℕ → ℕ → Bool
  pub lower : ℕ → ℕ
  pub web_device : ℕ → ℕ
  pub impersonation_device : ℕ → ℕ
  pub unknown_device : ℕ

pub record LoginDto : Type 0 where
  pub email : ℕ
  pub password : ℕ
  pub school_code : Option ℕ
  pub device_id : Option ℕ

-- What the database and crypto make up for a new session.
pub record Fresh : Type 0 where
  pub token : FreshToken
  pub session_id : ℕ

pub record LoginResult : Type 0 where
  pub refresh_token : ℕ
  pub user : AuthUser

abbrev pub entry : AuditAction → Option ℕ → ℕ → ℕ → AuditEntry
entry action school actor id = record {
  school_id = school;
  actor_user_id = actor;
  action = action;
  entity_type = EntityType.user;
  entity_id = some id;
}

abbrev is_cancelled : Option SchoolSubscription → Bool
is_cancelled none = false
is_cancelled (some s) = billing_eq s.billing_status BillingStatus.cancelled

-- `attempts >= maxAttempts || user.failedLoginAttempts + 1 >= maxAttempts`
abbrev pub lock_until : AuthConfig → ℕ → User → ℕ → Option ℕ
lock_until c now user attempts =
    if leb c.limits.max_attempts attempts
      || leb c.limits.max_attempts (user.failed_login_attempts + 1)
    then some (now + c.lock_duration_minutes * 60 * 1000)
    else none

module _ (c : AuthConfig) {redis : Redis Value} where
  unfoldable pub build_auth_user : ℕ → User → ℕ → Action (Accounts redis) AuthUser
  build_auth_user now user session_id = do
    roles ← gets (get_user_roles {redis = redis} user.id)
    permissions ← get_user_permissions c.permissions_ttl_seconds now user.id
    pure (record {
      id = user.id;
      school_id = user.school_id;
      role = resolve_primary_role roles;
      session_id = session_id;
      permissions = permissions;
      jti = none;
    })

  unfoldable pub register_failed_login :
      Counters redis → ℕ → User → ℕ → ℕ → Action (Accounts redis) (Unit {0})
  register_failed_login counters now user email ip = do
    attempts ← on_keys (record_failed_attempt c.lower redis counters c.limits (now / 1000) email ip)
    update_user user.id (count_failure (lock_until c now user attempts))

  unfoldable pub issue_session_for_user : ℕ → Fresh → User → ℕ → Action (Accounts redis) LoginResult
  issue_session_for_user now fresh user device_id = do
    refresh ← on_auth (
        on_auth_db
          (issue_refresh_token c.hash c.refresh_ttl now fresh.token user.id user.school_id none))
    session_id ← on_auth (
        on_auth_db (
          upsert_device_session c.refresh_ttl now fresh.session_id user.id user.school_id refresh.id
            device_id))
    auth_user ← build_auth_user now user session_id
    on_auth (
        on_auth_cache (cache_session redis (now / 1000) c.session_ttl_seconds session_id auth_user))
    pure (record { refresh_token = fresh.token.text; user = auth_user })

  -- What `login` does once the account may be used.
  abbrev check_password :
      Counters redis → ℕ → LoginDto → ℕ → User → Action (Accounts redis) (Unit {0})
  check_password counters now dto ip user = elim (c.verify dto.password user.password_hash) [
    | true ↦ pure tt
    | false ↦ do
      register_failed_login counters now user dto.email ip
      throw (unauthorized invalid_credentials)
  ]

module _ (prisma : Prisma) {redis : Redis Value} where
  abbrev assert_open : Option School → Action (Accounts redis) (Unit {0})
  assert_open none = throw (unauthorized school_not_found)
  assert_open (some school) = do
    throw_if (not (is_school_login_allowed school.status school.is_active))
        (unauthorized school_inactive)
    subscription ← find subscriptions_of prisma (λ s. s.school_id == school.id)
    throw_if (is_cancelled subscription) (unauthorized subscription_inactive)

  unfoldable pub assert_school_operational : Option ℕ → Action (Accounts redis) (Unit {0})
  assert_school_operational none = pure tt
  assert_school_operational (some school_id) = do
    school ← find_school_by_id prisma school_id
    assert_open school

module _ (c : AuthConfig) (prisma : Prisma) {redis : Redis Value} where
  abbrev pub log_in :
      Counters redis → ℕ → Fresh → LoginDto → ℕ → Option User → Action (Accounts redis) LoginResult
  log_in counters now fresh dto ip none = throw (unauthorized invalid_credentials)
  log_in counters now fresh dto ip (some user) = do
    throw_if (not user.is_active) (unauthorized invalid_credentials)
    throw_if (is_after user.locked_until now) (unauthorized account_locked)
    assert_school_operational prisma user.school_id
    check_password c counters now dto ip user
    on_keys (clear_attempts c.lower redis dto.email ip)
    update_user user.id (clear_failures now)
    result ← issue_session_for_user c now fresh user (get_or dto.device_id (c.web_device dto.email))
    on_auth (audit (entry AuditAction.login user.school_id user.id user.id))
    pure result

  unfoldable pub login :
      Counters redis → ℕ → Fresh → LoginDto → ℕ → Action (Accounts redis) LoginResult
  login counters now fresh dto ip = do
    on_keys (assert_not_rate_limited c.lower redis c.limits (now / 1000) dto.email ip)
    user ← find_user_for_login prisma c.lower dto.email dto.school_code
    log_in counters now fresh dto ip user
