-- ===== src/Auth/SignIn.antt =====
-- What a login leaves, and what its refresh token is good for: Auth/Login with Auth/Renewal.
use school_van_tracking_saa.Prelude.{
  false, ℕ, ◌/◌, ◌≡◌, refl, inl, inr, true, Option, none, some, List, [], ◌∷◌, ◌++◌, In, ok, Prisma,
  update_where, arith, ◌==◌, Option-cases, Bool-cases, Result, Result-cases, sym, get_or, In-any,
  ==_refl, not, ◌&&◌, ◌∙◌, ap,
}
use school_van_tracking_saa.Schema.{AuthUser, PermissionKey}
use school_van_tracking_saa.Redis.{
  Redis, Value, permissions_cache, as_permission_keys, permission_keys,
}
use school_van_tracking_saa.Redis.Counters.{Counters}
use school_van_tracking_saa.Subscription.Store.{School}
use school_van_tracking_saa.Auth.Store.{DeviceSession, AuthDatabase}
use school_van_tracking_saa.Auth.Tokens.{new_row}
use school_van_tracking_saa.Auth.Sessions.{upsert_device_session}
use school_van_tracking_saa.Auth.LoginProtection.{
  build_key, is_locked, clear_attempts, assert_not_rate_limited,
}
use school_van_tracking_saa.Auth.Permissions.{resolve_primary_role}
use school_van_tracking_saa.Auth.Accounts.{
  User, Accounts, has_login, clear_failures, find_user_for_login, is_after,
}
use school_van_tracking_saa.Auth.Grants.{
  get_user_permissions, get_user_roles, permissions_from, assignments_of,
}
use school_van_tracking_saa.Auth.Login.{
  AuthConfig, Fresh, LoginDto, LoginResult, assert_school_operational, build_auth_user,
  issue_session_for_user, log_in, login,
}

-- A state that differs in Redis at most.
abbrev pub with_cache : {redis : Redis Value} → Accounts redis → redis.Store → Accounts redis
with_cache w k = record w { auth = record w.auth { cache = k } }

pub upsert_lem :
    (ttl now new_id user : ℕ) (school : Option ℕ) (token device : ℕ) (d : AuthDatabase)
    → (id : ℕ) × (rows : List DeviceSession) × (upsert_device_session ttl now new_id user school
          token device d
        ≡ (ok id, record d { device_sessions = rows }))
unfolding upsert_device_session
upsert_lem ttl now new_id user school token device d = (_, _, refl)

module _ {redis : Redis Value} (now : ℕ) where
  get_user_permissions_lem :
      (ttl user : ℕ) (w : Accounts redis)
      → (ks : List PermissionKey) × (k : redis.Store) × (get_user_permissions ttl now user w
          ≡ (ok ks, with_cache w k))
  unfolding get_user_permissions
  get_user_permissions_lem ttl user w =
      elim (Option-cases
        (as_permission_keys (redis.get w.auth.cache (now / 1000) (permissions_cache user)))) [
          | inl e ↦
              let ks = permissions_from (assignments_of user w) in
              (
                ks,
                redis.setex w.auth.cache (now / 1000) (permissions_cache user) ttl
                    (permission_keys ks),
                ground arith,
              )
          | inr (ks, e) ↦ (ks, w.auth.cache, ground arith)
        ]

module _ (c : AuthConfig) {redis : Redis Value} (now : ℕ) where
  -- The user that a token is made for.
  pub build_auth_user_lem :
      (user : User) (session_id : ℕ) (w : Accounts redis)
      → (a : AuthUser) × (k : redis.Store) × (build_auth_user c now user session_id w
          ≡ (ok a, with_cache w k))
        × (a.id ≡ user.id)
  unfolding build_auth_user
  build_auth_user_lem user session_id w =
      let (ks, k, e) = get_user_permissions_lem now c.permissions_ttl_seconds user.id w in
      (
        record {
          id = user.id;
          school_id = user.school_id;
          role = resolve_primary_role (get_user_roles user.id w);
          session_id = session_id;
          permissions = ks;
          jti = none;
        },
        k,
        ground arith,
        refl,
      )

  issue_session_lem :
      (fresh : Fresh) (user : User) (device : ℕ) (w : Accounts redis)
      → let out = issue_session_for_user c now fresh user device w in
        (r : LoginResult) × (out.0 ≡ ok r)
        × (r.refresh_token ≡ fresh.token.text)
        × (r.user.id ≡ user.id)
        × (out.1.users ≡ w.users)
        × (out.1.auth.db.refresh_tokens
            ≡ w.auth.db.refresh_tokens
              ++ new_row c.hash c.refresh_ttl now fresh.token user.id user.school_id none ∷ [])
  unfolding issue_session_for_user
  issue_session_lem fresh user device w =
      let row = new_row c.hash c.refresh_ttl now fresh.token user.id user.school_id none in
      let d : AuthDatabase = record w.auth.db {
        refresh_tokens = w.auth.db.refresh_tokens ++ row ∷ [];
      } in
      let (id, rows, upserted) =
        upsert_lem c.refresh_ttl now fresh.session_id user.id user.school_id row.id device d in
      let w1 : Accounts redis = record w {
        auth = record w.auth { db = record d { device_sessions = rows } };
      } in
      let (a, k, built, same) = build_auth_user_lem user id w1 in
      (
        record { refresh_token = fresh.token.text; user = a },
        ground arith,
        refl,
        same,
        ground arith,
        ground arith,
      )

module _ (c : AuthConfig) (prisma : Prisma) {redis : Redis Value} where
  assert_school_operational-ReadOnly :
      (school : Option ℕ) (w : Accounts redis) → (assert_school_operational prisma school w).1 ≡ w
  unfolding assert_school_operational
  assert_school_operational-ReadOnly none w = refl
  assert_school_operational-ReadOnly (some school) w = ground arith

  find_user_for_login-ReadOnly :
      (email : ℕ) (code : Option ℕ) (w : Accounts redis)
      → (find_user_for_login prisma c.lower email code w).1 ≡ w
  unfolding find_user_for_login
  find_user_for_login-ReadOnly email none w = refl
  find_user_for_login-ReadOnly email (some code) w = ground arith

  find_user_for_login-In :
      (email : ℕ) (code : Option ℕ) (user : User) (w : Accounts redis)
      → (find_user_for_login prisma c.lower email code w).0 ≡ ok (some user)
      → In user w.users × (user.is_deleted ≡ false)
  unfolding find_user_for_login
  find_user_for_login-In email none user w h =
      let (fits, here) =
        prisma.find_first_sound (has_login c.lower email none) w.users (ground arith) in
      (here, ground arith)
  find_user_for_login-In email (some code) user w h =
      elim (Option-cases (
        prisma.find_first (λ (s : School). (s.code == code) && s.is_active && not s.is_deleted)
          w.schools)) [
            | inl missing ↦ absurd (ground arith)
            | inr (s, found) ↦
                let (fits, here) =
                  prisma.find_first_sound (has_login c.lower email (some s.id)) w.users
                    (ground arith) in
                (here, ground arith)
          ]

  -- What a login leaves for a user that was found.
  abbrev pub LoggedIn :
      ℕ → Fresh → ℕ → Accounts redis → LoginResult → Accounts redis → User → Type 0
  LoggedIn now fresh password w r w' user =
      (user.is_active ≡ true)
      × (c.verify password user.password_hash ≡ true)
      × (r.refresh_token ≡ fresh.token.text)
      × (r.user.id ≡ user.id)
      × (w'.users ≡ update_where (λ (u : User). u.id == user.id) (clear_failures now) w.users)
      × (w'.auth.db.refresh_tokens
          ≡ w.auth.db.refresh_tokens
            ++ new_row c.hash c.refresh_ttl now fresh.token user.id user.school_id none ∷ [])

  log_in-LoggedIn :
      (counters : Counters redis) (now : ℕ) (fresh : Fresh) (dto : LoginDto) (ip : ℕ) (user : User)
      (w : Accounts redis) (r : LoginResult)
      → In user w.users
      → (log_in c prisma counters now fresh dto ip (some user) w).0 ≡ ok r
      → LoggedIn now fresh dto.password w r
          (log_in c prisma counters now fresh dto ip (some user) w).1
          user
  unfolding clear_attempts
  log_in-LoggedIn counters now fresh dto ip user w r here h =
      let readonly = assert_school_operational-ReadOnly user.school_id w in
      let has = In-any (λ (u : User). u.id == user.id) user w.users here (==_refl user.id) in
      let w1 : Accounts redis =
        record (with_cache w (redis.del w.auth.cache (build_key c.lower dto.email ip))) {
          users = update_where (λ (u : User). u.id == user.id) (clear_failures now) w.users;
        } in
      let (r1, e1, text, id, us, tokens) =
        issue_session_lem c now fresh user (get_or dto.device_id (c.web_device dto.email)) w1 in
      elim (Result-cases (assert_school_operational prisma user.school_id w).0) [
        | inr (e, thrown) ↦ absurd (ground arith)
        | inl (x, is_open) ↦ elim (Bool-cases user.is_active) [
          | inr n ↦ absurd (ground arith)
          | inl active ↦ elim (Bool-cases (is_after user.locked_until now)) [
            | inl locked ↦ absurd (ground arith)
            | inr free ↦ elim (Bool-cases (c.verify dto.password user.password_hash)) [
              | inr wrong ↦ absurd (ground arith)
              | inl right ↦
                  let result : (log_in c prisma counters now fresh dto ip (some user) w).0 ≡ ok r1 =
                    ground arith in
                  let same : r ≡ r1 = ground arith in
                  (active, right, rw same text, rw same id, ground arith, ground arith)
            ]
          ]
        ]
      ]

  -- A login that succeeds has found a user with the password.
  pub login-LoggedIn :
      (counters : Counters redis) (now : ℕ) (fresh : Fresh) (dto : LoginDto) (ip : ℕ)
      (w : Accounts redis) (r : LoginResult)
      → (login c prisma counters now fresh dto ip w).0 ≡ ok r
      → (user : User) × In user w.users
        × (user.is_deleted ≡ false)
        × LoggedIn now fresh dto.password w r (login c prisma counters now fresh dto ip w).1 user
  unfolding login assert_not_rate_limited
  login-LoggedIn counters now fresh dto ip w r h =
      elim (Bool-cases (
        is_locked c.limits
          (redis.get w.auth.cache (now / 1000) (build_key c.lower dto.email ip)))) [
            | inl locked ↦ absurd (ground arith)
            | inr free ↦
                let find = find_user_for_login prisma c.lower dto.email dto.school_code in
                let same_state = find_user_for_login-ReadOnly dto.email dto.school_code w in
                elim (Result-cases (find w).0) [
                  | inr (e, thrown) ↦ absurd (ground arith)
                  | inl (found, is_found) ↦ elim (Option-cases found) [
                    | inl n ↦ absurd (ground arith)
                    | inr (user, y) ↦
                        let there : (find w).0 ≡ ok (some user) = is_found ∙ ap ok y in
                        let (here, present) =
                          find_user_for_login-In dto.email dto.school_code user w there in
                        let same : login c prisma counters now fresh dto ip w
                            ≡ log_in c prisma counters now fresh dto ip (some user) w =
                          ground arith in
                        (
                          user,
                          here,
                          present,
                          rw same (
                              log_in-LoggedIn counters now fresh dto ip user w r here (
                                ap (λ (p : Result LoginResult × Accounts redis). p.0) (sym same)
                                ∙ h)),
                        )
                  ]
                ]
          ]
