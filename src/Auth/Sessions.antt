-- ===== src/Auth/Sessions.antt =====
-- services/api/src/auth/services/session.service.ts: device sessions in the database, each cached
-- in Redis, and the parts of auth.service.ts that close them.
use school_van_tracking_saa.Prelude.{
  ℕ, ◌+◌, ◌/◌, Bool, true, false, Option, none, some, List, [], ◌∷◌, ◌++◌, filter, ok, Action, pure,
  gets, modify, Prisma, find, update_many, ◌>>=◌, ◌>>◌, ◌==◌, ◌&&◌, not, if◌then◌else◌,
}
use school_van_tracking_saa.Schema.{
  AuthUser, SessionStatus, session_eq, revoked, AuditAction, AuditEntry, EntityType,
}
use school_van_tracking_saa.Redis.{Redis, Value, session, as_session, session_cache}
use school_van_tracking_saa.Auth.Store.{
  DeviceSession, AuthDatabase, tokens_table, sessions_table, is_active,
}
use school_van_tracking_saa.Auth.Tokens.{
  revoke_at, revoke_refresh_token, revoke_all_user_refresh_tokens, blacklist_access_token,
}

-- The tables and Redis, and the audit log.
pub record AuthWorld (redis : Redis Value) : Type 0 where
  pub db : AuthDatabase
  pub cache : redis.Store
  pub audit_log : List AuditEntry

abbrev pub open_session : DeviceSession → Bool
open_session s = session_eq s.status SessionStatus.active

abbrev pub open_of_user : ℕ → DeviceSession → Bool
open_of_user user s = (s.user_id == user) && open_session s

abbrev pub open_with_id : ℕ → DeviceSession → Bool
open_with_id id s = (s.id == id) && open_session s

abbrev pub close : DeviceSession → DeviceSession
close s = record s { status = revoked }

abbrev pub same_device : ℕ → ℕ → DeviceSession → Bool
same_device user device s = (s.user_id == user) && (s.device_id == device)

module _ {redis : Redis Value} where
  abbrev pub on_auth_db : {A : Type 0} → Action AuthDatabase A → Action (AuthWorld redis) A
  on_auth_db m w = let (r, d) = m w.db in (r, record w { db = d })

  abbrev pub on_auth_cache : (redis.Store → redis.Store) → Action (AuthWorld redis) (Unit {0})
  on_auth_cache f = modify (λ (w : AuthWorld redis). record w { cache = f w.cache })

  abbrev pub audit : AuditEntry → Action (AuthWorld redis) (Unit {0})
  audit e = modify (λ (w : AuthWorld redis). record w { audit_log = w.audit_log ++ e ∷ [] })

abbrev logged_out : AuthUser → AuditEntry
logged_out user = record {
  school_id = user.school_id;
  actor_user_id = user.id;
  action = AuditAction.logout;
  entity_type = EntityType.user;
  entity_id = some user.id;
}

-- `upsert` under the unique key of user and device: the row is updated, or created with `new_id`.
-- The result is the session's identifier.
abbrev upsert_rows : ℕ → DeviceSession → List DeviceSession → ℕ × List DeviceSession
upsert_rows new_id row [] = (new_id, row ∷ [])
upsert_rows new_id row (s ∷ rest) =
    let (id, rows) = upsert_rows new_id row rest in
    if same_device row.user_id row.device_id s
    then (
      s.id,
      record s {
        refresh_token_id = row.refresh_token_id;
        status = row.status;
        last_seen_at = row.last_seen_at;
        expires_at = row.expires_at;
      }
          ∷ rest,
    )
    else (id, s ∷ rows)

unfoldable pub upsert_device_session : ℕ → ℕ → ℕ → ℕ → Option ℕ → ℕ → ℕ → Action AuthDatabase ℕ
upsert_device_session ttl now new_id user school token device d =
    let (id, rows) =
      upsert_rows new_id
        (record {
          id = new_id;
          school_id = school;
          user_id = user;
          device_id = device;
          refresh_token_id = some token;
          status = SessionStatus.active;
          last_seen_at = now;
          expires_at = now + ttl;
        })
        d.device_sessions in
    pure id (record d { device_sessions = rows })

unfoldable pub touch_session : ℕ → ℕ → Action AuthDatabase (Unit {0})
touch_session now id =
    update_many sessions_table (open_with_id id) (λ s. record s { last_seen_at = now })

module _ (redis : Redis Value) where
  unfoldable pub cache_session : ℕ → ℕ → ℕ → AuthUser → redis.Store → redis.Store
  cache_session now ttl id user c = redis.setex c now (session_cache id) ttl (session user)

  unfoldable pub get_cached_session : ℕ → ℕ → redis.Store → Option AuthUser
  get_cached_session now id c = as_session (redis.get c now (session_cache id))

  -- `for (const session of sessions) pipeline.del(…)`
  abbrev pub del_sessions : List DeviceSession → redis.Store → redis.Store
  del_sessions [] c = c
  del_sessions (s ∷ rest) c = del_sessions rest (redis.del c (session_cache s.id))

module _ {redis : Redis Value} where
  abbrev pub revoke_session : ℕ → Action (AuthWorld redis) (Unit {0})
  revoke_session id = do
    on_auth_db (update_many sessions_table (open_with_id id) close)
    on_auth_cache (λ c. redis.del c (session_cache id))

  abbrev pub revoke_all_user_sessions : ℕ → Action (AuthWorld redis) (Unit {0})
  revoke_all_user_sessions user = do
    live ← gets (λ (w : AuthWorld redis). filter (open_of_user user) w.db.device_sessions)
    on_auth_db (update_many sessions_table (open_of_user user) close)
    on_auth_cache (del_sessions redis live)

  abbrev revoke_token_of : ℕ → Option ℕ → Action (AuthWorld redis) (Unit {0})
  revoke_token_of now none = pure tt
  revoke_token_of now (some token) =
      on_auth_db (update_many tokens_table (λ t. (t.id == token) && is_active t) (revoke_at now))

  abbrev revoke_found : ℕ → Option DeviceSession → Action (AuthWorld redis) Bool
  revoke_found now none w = (ok false, w)
  revoke_found now (some s) w =
      if not (open_session s)
      then (pure false) w
      else (do revoke_session s.id; revoke_token_of now s.refresh_token_id; pure true) w

  unfoldable pub revoke_session_by_device_id : Prisma → ℕ → ℕ → ℕ → Action (AuthWorld redis) Bool
  revoke_session_by_device_id prisma now user device = do
    found ← on_auth_db (find sessions_table prisma (same_device user device))
    revoke_found now found

  -- `if (user.jti) …`
  abbrev blacklist : ℕ → ℕ → Option ℕ → Action (AuthWorld redis) (Unit {0})
  blacklist now access_ttl none = pure tt
  blacklist now access_ttl (some jti) =
      on_auth_cache (blacklist_access_token redis (now / 1000) jti access_ttl)

  -- `if (refreshToken) …`
  abbrev revoke_given : (ℕ → ℕ) → ℕ → Option ℕ → Action (AuthWorld redis) (Unit {0})
  revoke_given hash now none = pure tt
  revoke_given hash now (some token) = on_auth_db (revoke_refresh_token hash now token)

  -- `AuthService.logout`
  unfoldable pub logout :
      (ℕ → ℕ) → ℕ → ℕ → AuthUser → Option ℕ → Action (AuthWorld redis) (Unit {0})
  logout hash now access_ttl user refresh_token = do
    blacklist now access_ttl user.jti
    revoke_given hash now refresh_token
    revoke_session user.session_id
    audit (logged_out user)

  -- `AuthService.logoutAll`
  unfoldable pub logout_all : ℕ → ℕ → AuthUser → Action (AuthWorld redis) (Unit {0})
  logout_all now access_ttl user = do
    blacklist now access_ttl user.jti
    on_auth_db (revoke_all_user_refresh_tokens now user.id)
    revoke_all_user_sessions user.id
    audit (logged_out user)
