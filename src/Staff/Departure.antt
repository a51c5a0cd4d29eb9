-- ===== src/Staff/Departure.antt =====
-- What the removal of a driver leaves of the driver's access, by Staff/Drivers and Auth/Renewal.
use school_van_tracking_saa.Prelude.{
  not, ℕ, ◌/◌, ◌≡◌, ◌↔◌, refl, ap, ◌∙◌, inl, inr, Bool, true, false, Option, none, some, any, ok,
  Prisma, update_where, count, arith, ◌==◌, ◌&&◌, is_some, Option-cases, Bool-cases, In-any,
  In-count, count-update_where-zero,
}
use school_van_tracking_saa.Schema.{AuthUser, Driver}
use school_van_tracking_saa.Redis.{
  Redis, Value, as_session, session_cache, token_blacklist, driver_van_assignment,
}
use school_van_tracking_saa.Tenant.Context.{resolve_school_id}
use school_van_tracking_saa.Fleet.Cache.{clear_driver_van_assignment}
use school_van_tracking_saa.Fleet.Assignment.{is_driver, is_active_of_driver}
use school_van_tracking_saa.Auth.Sessions.{get_cached_session}
use school_van_tracking_saa.Auth.Accounts.{User, Accounts}
use school_van_tracking_saa.Auth.Login.{AuthConfig}
use school_van_tracking_saa.Auth.Renewal.{JwtAccessPayload, validate, is_live, is_blocked}
use school_van_tracking_saa.Staff.Office.{Office, accounts_of}
use school_van_tracking_saa.Staff.Drivers.{remove}

-- The pairing of a driver with a van has no part in sessions and black lists.
module _ (redis : Redis Value) (school driver : ℕ) (o : Office redis) where
  session-kept :
      (t session : ℕ) (s : redis.Store)
      → s ≡ redis.del o.platform.cache (driver_van_assignment school driver)
      → get_cached_session redis t session s ≡ get_cached_session redis t session o.platform.cache
  unfolding get_cached_session
  session-kept t session s e = rw e (
      ap as_session (
        redis.get-del_ne o.platform.cache t (driver_van_assignment school driver)
          (session_cache session) (λ k. cc)))

  blocked-kept :
      (now : ℕ) (jti : Option ℕ) (w : Accounts redis)
      → w.auth.cache ≡ redis.del o.platform.cache (driver_van_assignment school driver)
      → is_blocked {redis = redis} now jti w ≡ is_blocked {redis = redis} now jti (accounts_of o)
  blocked-kept now none w e = refl
  blocked-kept now (some jti) w e = rw e (
      ap is_some (
        redis.get-del_ne o.platform.cache (now / 1000) (driver_van_assignment school driver)
          (token_blacklist jti) (λ k. cc)))

module _ (c : AuthConfig) (prisma : Prisma) {redis : Redis Value} where
  -- Without a cached session, an inactive user gets no access.
  validate-inactive :
      (now : ℕ) (payload : JwtAccessPayload) (w : Accounts redis) (r : AuthUser)
      → get_cached_session redis (now / 1000) payload.session_id w.auth.cache ≡ none
      → count (λ (u : User). (u.id == payload.sub) && u.is_active && not u.is_deleted) w.users ≡ 0
      → (validate c prisma now payload w).0 ≡ ok r
      → ⊥
  unfolding validate
  validate-inactive now payload w r uncached nobody h =
      let active : User → Bool = λ u. (u.id == payload.sub) && u.is_active && not u.is_deleted in
      elim (Bool-cases (is_blocked now payload.jti w)) [
        | inl y ↦ absurd (ground arith)
        | inr n ↦
            elim (Option-cases
              (prisma.find_first (is_live now payload) w.auth.db.device_sessions)) [
                | inl none_live ↦ absurd (ground arith)
                | inr (s, live) ↦ elim (Option-cases (prisma.find_first active w.users)) [
                  | inl missing ↦ absurd (ground arith)
                  | inr (u, found) ↦
                      let (fits, here) = prisma.find_first_sound active w.users found in
                      absurd (omega (arith, nobody, In-count active u w.users here fits))
                ]
              ]
      ]

  validate-cached :
      (now : ℕ) (payload : JwtAccessPayload) (w : Accounts redis) (s : AuthUser)
      → is_blocked now payload.jti w ≡ false
      → get_cached_session redis (now / 1000) payload.session_id w.auth.cache ≡ some s
      → (validate c prisma now payload w).0 ≡ ok (record s { jti = payload.jti })
  unfolding validate
  validate-cached now payload w s free cached = ground arith

  -- The users and the cache after a removal.
  remove-parts :
      (user : AuthUser) (id school : ℕ) (o : Office redis) (x : Driver)
      → resolve_school_id user none ≡ ok school
      → prisma.find_first (is_driver school id) o.platform.fleet.drivers ≡ some x
      → (remove prisma user id o).0 ≡ ok tt
      → ((remove prisma user id o).1.users
          ≡ update_where
              (λ (u : User). u.id == x.user_id)
              (λ u. record u { is_active = false })
              o.users)
        × ((remove prisma user id o).1.platform.cache
            ≡ redis.del o.platform.cache (driver_van_assignment school id))
  unfolding remove clear_driver_van_assignment
  remove-parts user id school o x own found h =
      elim (Option-cases
        (prisma.find_first (is_active_of_driver school id) o.platform.fleet.trips)) [
          | inr (t, busy) ↦ absurd (ground arith)
          | inl idle ↦ elim (Bool-cases (any (λ (u : User). u.id == x.user_id) o.users)) [
            | inr n ↦ absurd (ground arith)
            | inl y ↦
                let (fits, here) =
                  prisma.find_first_sound (is_driver school id) o.platform.fleet.drivers found in
                let there =
                  In-any (λ (d : Driver). d.id == id) x o.platform.fleet.drivers here
                    (ground arith) in
                (ground arith, ground arith)
          ]
        ]

  -- After a driver was removed, the check of an access token of the driver's that is not on the
  -- black list accepts it exactly when its session is in the cache.
  pub remove-access_iff :
      (user : AuthUser) (id school now session : ℕ) (jti : Option ℕ) (o : Office redis) (x : Driver)
      → resolve_school_id user none ≡ ok school
      → prisma.find_first (is_driver school id) o.platform.fleet.drivers ≡ some x
      → (remove prisma user id o).0 ≡ ok tt
      → is_blocked {redis = redis} now jti (accounts_of o) ≡ false
      → ((r : AuthUser) × ((validate c prisma now
              (record { sub = x.user_id; session_id = session; jti = jti })
              (accounts_of (remove prisma user id o).1)).0
            ≡ ok r))
        ↔ (is_some (get_cached_session redis (now / 1000) session o.platform.cache) ≡ true)
  remove-access_iff user id school now session jti o x own found h free =
      let w = accounts_of (remove prisma user id o).1 in
      let payload : JwtAccessPayload = record {
        sub = x.user_id;
        session_id = session;
        jti = jti;
      } in
      let active : User → Bool = λ u. (u.id == x.user_id) && u.is_active && not u.is_deleted in
      let (users, cache) = remove-parts user id school o x own found h in
      let kept = session-kept redis school id o (now / 1000) session w.auth.cache cache in
      let nobody : count active w.users ≡ 0 = rw users (
        count-update_where-zero active (λ (u : User). u.id == x.user_id)
          (λ u. record u { is_active = false }) o.users (λ u fits. ground arith)
          (λ u. ground arith)) in
      elim (Option-cases (get_cached_session redis (now / 1000) session o.platform.cache)) [
        | inl none_there ↦ (
          λ (r, e). absurd (validate-inactive now payload w r (kept ∙ none_there) nobody e),
          λ there. absurd (ground arith),
        )
        | inr (s, there) ↦
            let open_token = blocked-kept redis school id o now jti w cache ∙ free in
            (
              λ _. rw there refl,
              λ _. (
                record s { jti = jti },
                validate-cached now payload w s open_token (kept ∙ there),
              ),
            )
      ]
