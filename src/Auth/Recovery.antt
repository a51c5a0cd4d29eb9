-- ===== src/Auth/Recovery.antt =====
-- What a change and a reset of a password leave, by Auth/Passwords and Auth/Renewal.
use school_van_tracking_saa.Prelude.{
  not, ◌&&◌, ℕ, ◌/◌, ◌≤◌, ◌≡◌, ◌⊎◌, refl, inl, inr, Bool, true, Option, none, In, any, ok, err,
  unauthorized, bad_request, invalid_reset_token, session_invalid, token_revoked, Prisma,
  update_where, filter, count, arith, ◌==◌, is_value, Option-cases, Bool-cases, In-any, In-count,
  count-update_where-zero, count-update_where-lt,
}
use school_van_tracking_saa.Schema.{AuthUser}
use school_van_tracking_saa.Redis.{Redis, Value}
use school_van_tracking_saa.Auth.Store.{DeviceSession}
use school_van_tracking_saa.Auth.Sessions.{open_of_user, close, del_sessions, get_cached_session}
use school_van_tracking_saa.Auth.Closing.{del_sessions-gone, In-filter}
use school_van_tracking_saa.Auth.Accounts.{User, Accounts, has_reset_hash, set_password}
use school_van_tracking_saa.Auth.Login.{AuthConfig}
use school_van_tracking_saa.Auth.Renewal.{JwtAccessPayload, validate, is_live, is_blocked}
use school_van_tracking_saa.Auth.Passwords.{replace_password, change_password, reset_password}

module _ (c : AuthConfig) (prisma : Prisma) {redis : Redis Value} where
  -- The access token is refused, because it or its session was revoked.
  abbrev pub Refused : ℕ → JwtAccessPayload → Accounts redis → Type 0
  Refused now payload w =
      ((validate c prisma now payload w).0 ≡ err (unauthorized token_revoked))
      ⊎ ((validate c prisma now payload w).0 ≡ err (unauthorized session_invalid))

  -- A user without an open session, in the cache or the table, is refused.
  validate-Refused :
      (now : ℕ) (payload : JwtAccessPayload) (w : Accounts redis)
      → get_cached_session redis (now / 1000) payload.session_id w.auth.cache ≡ none
      → count (open_of_user payload.sub) w.auth.db.device_sessions ≡ 0
      → Refused now payload w
  unfolding validate
  validate-Refused now payload w uncached closed =
      elim (Bool-cases (is_blocked now payload.jti w)) [
        | inl y ↦ inl (ground arith)
        | inr n ↦
            elim (Option-cases
              (prisma.find_first (is_live now payload) w.auth.db.device_sessions)) [
                | inl none_live ↦ inr (ground arith)
                | inr (s, found) ↦
                    let (fits, here) =
                      prisma.find_first_sound (is_live now payload) w.auth.db.device_sessions
                        found in
                    absurd (
                      omega (
                        arith,
                        closed,
                        In-count (open_of_user payload.sub) s w.auth.db.device_sessions here
                            (ground arith),
                      ))
              ]
      ]

module _ (c : AuthConfig) (prisma : Prisma) {redis : Redis Value} (now : ℕ)
    (w : Accounts redis) where
  module _ (user new_password : ℕ) (school : Option ℕ)
      (has : any (λ (u : User). u.id == user) w.users ≡ true) where
    abbrev replaced : Accounts redis
    replaced = (replace_password c prisma now user school new_password w).1

    -- The tables and the cached sessions after a password was replaced.
    replaced_parts :
        (replaced.users
          ≡ update_where
              (λ (u : User). u.id == user)
              (set_password (c.hash_password new_password))
              w.users)
        × (replaced.auth.db.device_sessions
            ≡ update_where (open_of_user user) close w.auth.db.device_sessions)
        × (replaced.auth.cache
            ≡ del_sessions redis
                (filter (open_of_user user) w.auth.db.device_sessions)
                w.auth.cache)
    replaced_parts = ground arith

    -- No session that was open can be used again.
    replaced-Refused :
        (later : ℕ) (s : DeviceSession) (jti : Option ℕ)
        → In s w.auth.db.device_sessions
        → open_of_user user s ≡ true
        → Refused c prisma later (record { sub = user; session_id = s.id; jti = jti }) replaced
    replaced-Refused later s jti i was_open =
        let (us, sessions, cache) = replaced_parts in
        let live = filter (open_of_user user) w.auth.db.device_sessions in
        let listed = In-filter (open_of_user user) s w.auth.db.device_sessions i was_open in
        validate-Refused c prisma later (record { sub = user; session_id = s.id; jti = jti })
          replaced (rw cache (del_sessions-gone redis (later / 1000) live w.auth.cache s listed))
          (rw sessions (
            count-update_where-zero (open_of_user user) (open_of_user user) close
              w.auth.db.device_sessions (λ x h. h) (λ x. ground arith)))

-- A reset token that no user has is refused.
reset_password-unknown :
    (c : AuthConfig) (prisma : Prisma) {redis : Redis Value} (reset_token new_password now : ℕ)
    (w : Accounts redis)
    → count (λ (u : User). is_value u.password_reset_token_hash (c.hash reset_token)) w.users ≡ 0
    → (reset_password c prisma now reset_token new_password w).0
      ≡ err (bad_request invalid_reset_token)
unfolding reset_password
reset_password-unknown c prisma reset_token new_password now w nobody =
    let token_hash = c.hash reset_token in
    elim (Option-cases (prisma.find_first (has_reset_hash now token_hash) w.users)) [
      | inl missing ↦ ground arith
      | inr (u, found) ↦
          let (fits, here) =
            prisma.find_first_sound (has_reset_hash now token_hash) w.users found in
          absurd (
            omega (
              arith,
              nobody,
              In-count (λ (x : User). is_value x.password_reset_token_hash token_hash) u w.users
                  here (ground arith),
            ))
    ]

module _ (c : AuthConfig) (prisma : Prisma) {redis : Redis Value} (now : ℕ)
    (w : Accounts redis) where
  -- Once a user has changed the password, no access token of a session that the user had open is
  -- accepted any more, whether or not the session was cached.
  pub change_password-Refused :
      (user : AuthUser) (current_password new_password later : ℕ) (s : DeviceSession)
      (jti : Option ℕ)
      → (change_password c prisma now user current_password new_password w).0 ≡ ok tt
      → In s w.auth.db.device_sessions
      → open_of_user user.id s ≡ true
      → Refused c prisma later
          (record { sub = user.id; session_id = s.id; jti = jti })
          (change_password c prisma now user current_password new_password w).1
  unfolding change_password
  change_password-Refused user current_password new_password later s jti h i was_open =
      elim (Option-cases
        (prisma.find_first (λ (u : User). (u.id == user.id) && not u.is_deleted) w.users)) [
          | inl missing ↦ absurd (ground arith)
          | inr (u, found) ↦
              let (fits, here) =
                prisma.find_first_sound (λ (u : User). (u.id == user.id) && not u.is_deleted)
                  w.users found in
              let has = In-any (λ (u : User). u.id == user.id) u w.users here (ground arith) in
              elim (Bool-cases (c.verify current_password u.password_hash)) [
                | inr n ↦ absurd (ground arith)
                | inl y ↦
                    let same : (change_password c prisma now user current_password new_password w).1
                        ≡ replaced c prisma now w user.id new_password user.school_id has =
                      ground arith in
                    rw same (
                      replaced-Refused c prisma now w user.id new_password user.school_id has later
                        s jti i was_open)
              ]
        ]

  -- A reset token that no other user has works once: after it has set a password, it is refused.
  pub reset_password-once :
      (reset_token new_password other_password later : ℕ)
      → count (λ (u : User). is_value u.password_reset_token_hash (c.hash reset_token)) w.users ≤ 1
      → (reset_password c prisma now reset_token new_password w).0 ≡ ok tt
      → (reset_password c prisma later reset_token other_password
          (reset_password c prisma now reset_token new_password w).1).0
        ≡ err (bad_request invalid_reset_token)
  unfolding reset_password
  reset_password-once reset_token new_password other_password later unique h =
      let token_hash = c.hash reset_token in
      let has_hash : User → Bool = λ u. is_value u.password_reset_token_hash token_hash in
      elim (Option-cases (prisma.find_first (has_reset_hash now token_hash) w.users)) [
        | inl missing ↦ absurd (ground arith)
        | inr (u, found) ↦
            let (fits, here) =
              prisma.find_first_sound (has_reset_hash now token_hash) w.users found in
            let has = In-any (λ (x : User). x.id == u.id) u w.users here (ground arith) in
            let w' = replaced c prisma now w u.id new_password u.school_id has in
            let (us, sessions, cache) =
              replaced_parts c prisma now w u.id new_password u.school_id has in
            let fewer =
              count-update_where-lt has_hash (λ (x : User). x.id == u.id)
                (set_password (c.hash_password new_password)) u w.users here (ground arith)
                (ground arith) (λ x. refl) in
            let none_left : count has_hash w'.users ≡ 0 = rw us (omega (arith, fewer, unique)) in
            let same : (reset_password c prisma now reset_token new_password w).1 ≡ w' =
              ground arith in
            rw same (reset_password-unknown c prisma reset_token other_password later w' none_left)
      ]
