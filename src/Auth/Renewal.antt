-- ===== src/Auth/Renewal.antt =====
-- `refresh`, `impersonateSchoolAdmin` and `revokeDeviceSession` of
-- services/api/src/auth/services/auth.service.ts, and the check of an access token by
-- services/api/src/auth/strategies/jwt.strategy.ts.
use school_van_tracking_saa.Prelude.{
  ℕ, ◌/◌, Bool, false, Option, none, some, Prisma, Action, pure, throw, throw_if, or_throw, gets,
  find, update_many, when, ◌>>=◌, ◌>>◌, ◌==◌, not, ◌&&◌, is_some, is_value, ltb, unauthorized,
  only_super_admin, target_not_found, user_inactive, token_revoked, session_invalid, user_not_found,
}
use school_van_tracking_saa.Schema.{
  AuthUser, super_admin, role_eq, AuditAction, AuditEntry, EntityType,
}
use school_van_tracking_saa.Redis.{Redis, Value, token_blacklist}
use school_van_tracking_saa.Auth.Store.{DeviceSession, sessions_table}
use school_van_tracking_saa.Auth.Tokens.{Rotation, rotate_refresh_token}
use school_van_tracking_saa.Auth.Sessions.{
  on_auth_db, on_auth_cache, audit, open_session, upsert_device_session, cache_session,
  get_cached_session, touch_session, revoke_session_by_device_id,
}
use school_van_tracking_saa.Auth.Accounts.{User, Accounts, users_table, on_auth}
use school_van_tracking_saa.Auth.Login.{
  AuthConfig, Fresh, LoginResult, entry, build_auth_user, issue_session_for_user,
}

pub record JwtAccessPayload : Type 0 where
  pub sub : ℕ
  pub session_id : ℕ
  pub jti : Option ℕ

-- `{ refreshTokenId, status: 'ACTIVE' }`
abbrev pub is_session_of : ℕ → DeviceSession → Bool
is_session_of token s = is_value s.refresh_token_id token && open_session s

-- `{ id, userId, status: ACTIVE, expiresAt: { gt: new Date() } }`
abbrev pub is_live : ℕ → JwtAccessPayload → DeviceSession → Bool
is_live now payload s =
    (s.id == payload.session_id)
    && (s.user_id == payload.sub)
    && open_session s
    && ltb now s.expires_at

abbrev revoked_device : AuthUser → AuditEntry
revoked_device user = record {
  school_id = user.school_id;
  actor_user_id = user.id;
  action = AuditAction.logout;
  entity_type = EntityType.device_session;
  entity_id = none;
}

abbrev pub is_blocked : {redis : Redis Value} → ℕ → Option ℕ → Accounts redis → Bool
is_blocked now none w = false
is_blocked {redis} now (some jti) w =
    is_some (redis.get w.auth.cache (now / 1000) (token_blacklist jti))

module _ (c : AuthConfig) (prisma : Prisma) {redis : Redis Value} where
  abbrev session_or_new : ℕ → ℕ → User → ℕ → Option DeviceSession → Action (Accounts redis) ℕ
  session_or_new now new_session user token (some s) = pure s.id
  session_or_new now new_session user token none = on_auth (
      on_auth_db (
        upsert_device_session c.refresh_ttl now new_session user.id user.school_id token
          c.unknown_device))

  abbrev pub refresh_for : ℕ → Fresh → Rotation → Option User → Action (Accounts redis) ℕ
  refresh_for now fresh rotated none = throw (unauthorized user_inactive)
  refresh_for now fresh rotated (some user) = do
    throw_if (not user.is_active) (unauthorized user_inactive)
    on_auth (
        on_auth_db (
          update_many sessions_table (λ s. is_value s.refresh_token_id rotated.previous_token_id)
            (λ s. record s { refresh_token_id = some rotated.new_token_id; last_seen_at = now })))
    session ← on_auth (on_auth_db (find sessions_table prisma (is_session_of rotated.new_token_id)))
    session_id ← session_or_new now fresh.session_id user rotated.new_token_id session
    auth_user ← build_auth_user c now user session_id
    on_auth (
        on_auth_cache (cache_session redis (now / 1000) c.session_ttl_seconds session_id auth_user))
    on_auth (on_auth_db (touch_session now session_id))
    pure rotated.new_refresh_token

  -- The result is the new refresh token.
  unfoldable pub refresh : ℕ → Fresh → ℕ → Action (Accounts redis) ℕ
  refresh now fresh token = do
    rotated ←
        on_auth
          (on_auth_db (rotate_refresh_token c.hash prisma c.refresh_ttl now fresh.token token))
    user ← find users_table prisma (λ u. (u.id == rotated.user_id) && not u.is_deleted)
    refresh_for now fresh rotated user

  unfoldable impersonate_school_admin :
      ℕ → Fresh → AuthUser → ℕ → Action (Accounts redis) LoginResult
  impersonate_school_admin now fresh actor target = do
    throw_if (not (role_eq actor.role super_admin)) (unauthorized only_super_admin)
    found ← find users_table prisma (λ u. (u.id == target) && u.is_active && not u.is_deleted)
    user ← or_throw found (unauthorized target_not_found)
    on_auth (audit (entry AuditAction.login user.school_id actor.id user.id))
    issue_session_for_user c now fresh user (c.impersonation_device actor.id)

  unfoldable revoke_device_session : ℕ → AuthUser → ℕ → Action (Accounts redis) Bool
  revoke_device_session now user device = do
    revoked ← on_auth (revoke_session_by_device_id prisma now user.id device)
    when revoked (on_auth (audit (revoked_device user)))
    pure revoked

  abbrev load_user : ℕ → JwtAccessPayload → Action (Accounts redis) AuthUser
  load_user now payload = do
    session ← on_auth (on_auth_db (find sessions_table prisma (is_live now payload)))
    throw_if (not (is_some session)) (unauthorized session_invalid)
    found ← find users_table prisma (λ u. (u.id == payload.sub) && u.is_active && not u.is_deleted)
    user ← or_throw found (unauthorized user_not_found)
    auth_user ← build_auth_user c now user payload.session_id
    on_auth (
        on_auth_cache (
          cache_session redis (now / 1000) c.session_ttl_seconds payload.session_id
            (record auth_user { jti = payload.jti })))
    pure (record auth_user { jti = payload.jti })

  abbrev cached_or_load_user :
      ℕ → JwtAccessPayload → Option AuthUser → Action (Accounts redis) AuthUser
  cached_or_load_user now payload (some cached) = pure (record cached { jti = payload.jti })
  cached_or_load_user now payload none = load_user now payload

  -- `JwtStrategy.validate`, for a token whose signature and expiry are right.
  unfoldable pub validate : ℕ → JwtAccessPayload → Action (Accounts redis) AuthUser
  validate now payload = do
    blocked ← gets (is_blocked {redis = redis} now payload.jti)
    throw_if blocked (unauthorized token_revoked)
    cached ← gets (λ (w : Accounts redis).
        get_cached_session redis (now / 1000) payload.session_id w.auth.cache)
    cached_or_load_user now payload cached
