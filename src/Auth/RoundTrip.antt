-- ===== src/Auth/RoundTrip.antt =====
-- A login and the refresh that follows it.
use school_van_tracking_saa.Prelude.{
  count-le-of_imp, not, ◌&&◌, false, ℕ, ◌+◌, ◌<◌, ◌≤◌, ◌≡◌, refl, ap, ◌∙◌, Bool, true, Option, none,
  some, List, [], ◌∷◌, ◌++◌, In, Prisma, ok, Option-cases, inl, inr, count, update_where, arith,
  ◌==◌, ==_refl, In-any, is_value, In-count, In-update_where, In-append_right, eq-of_unique,
  count-append, count-update_where,
}
use school_van_tracking_saa.Redis.{Redis, Value}
use school_van_tracking_saa.Redis.Counters.{Counters}
use school_van_tracking_saa.Auth.Store.{RefreshToken, AuthDatabase}
use school_van_tracking_saa.Auth.Tokens.{
  FreshToken, Rotation, is_usable, new_row, rotate_refresh_token,
}
use school_van_tracking_saa.Auth.Families.{rotated_from}
use school_van_tracking_saa.Auth.Sessions.{touch_session, cache_session}
use school_van_tracking_saa.Auth.Accounts.{User, Accounts, clear_failures}
use school_van_tracking_saa.Auth.Login.{AuthConfig, Fresh, LoginDto, LoginResult, login}
use school_van_tracking_saa.Auth.Renewal.{is_session_of, refresh, refresh_for}
use school_van_tracking_saa.Auth.SignIn.{build_auth_user_lem, upsert_lem, login-LoggedIn}

rotate-ok :
    (hash : ℕ → ℕ) (prisma : Prisma) (ttl now token : ℕ) (fresh : FreshToken) (d : AuthDatabase)
    (t : RefreshToken)
    → prisma.find_first (is_usable now (hash token)) d.refresh_tokens ≡ some t
    → rotate_refresh_token hash prisma ttl now fresh token d ≡ (
      ok (record {
        user_id = t.user_id;
        school_id = t.school_id;
        new_refresh_token = fresh.text;
        family_id = t.family_id;
        previous_token_id = t.id;
        new_token_id = fresh.row_id;
      }),
      rotated_from hash prisma ttl now fresh t d,
    )
unfolding rotate_refresh_token
rotate-ok hash prisma ttl now token fresh d t found =
    let (fits, here) =
      prisma.find_first_sound (is_usable now (hash token)) d.refresh_tokens found in
    let present =
      In-any (λ (x : RefreshToken). x.id == t.id) t d.refresh_tokens here (==_refl t.id) in
    ground arith

-- The token of a row is the one that can be used, if no other token has its hash.
find_new :
    (c : AuthConfig) (prisma : Prisma) (now later : ℕ) (fresh : FreshToken) (user : ℕ)
    (school : Option ℕ) (old : List RefreshToken)
    → later < now + c.refresh_ttl
    → count (λ (t : RefreshToken). t.token_hash == c.hash fresh.text) old ≡ 0
    → let row = new_row c.hash c.refresh_ttl now fresh user school none in
      prisma.find_first (is_usable later (c.hash fresh.text)) (old ++ row ∷ []) ≡ some row
find_new c prisma now later fresh user school old in_time unused =
    let row = new_row c.hash c.refresh_ttl now fresh user school none in
    let usable = is_usable later (c.hash fresh.text) in
    let has_hash : RefreshToken → Bool = λ t. t.token_hash == c.hash fresh.text in
    let there = In-append_right row old (row ∷ []) (inl refl) in
    let fits : usable row ≡ true = ground arith in
    elim (Option-cases (prisma.find_first usable (old ++ row ∷ []))) [
      | inl missing ↦ absurd (
          omega (
            arith,
            In-count usable row (old ++ row ∷ []) there fits,
            prisma.find_first_complete usable (old ++ row ∷ []) missing,
          ))
      | inr (t, found) ↦
          let (t_fits, t_there) = prisma.find_first_sound usable (old ++ row ∷ []) found in
          let one : count has_hash (old ++ row ∷ []) ≤ 1 =
            rw (count-append has_hash old (row ∷ [])) (ground arith) in
          found
          ∙ ap some (
              eq-of_unique has_hash row t (old ++ row ∷ []) there t_there (==_refl _) (ground arith)
                one)
    ]

-- A user whose identifier no other user has is found after an update.
find_updated :
    (prisma : Prisma) (f : User → User) (user : User) (users : List User)
    → ((u : User) → (f u).id ≡ u.id)
    → ((u : User) → (f u).is_deleted ≡ u.is_deleted)
    → user.is_deleted ≡ false
    → In user users
    → count (λ (u : User). u.id == user.id) users ≤ 1
    → prisma.find_first
        (λ (u : User). (u.id == user.id) && not u.is_deleted)
        (update_where (λ (u : User). u.id == user.id) f users)
      ≡ some (f user)
find_updated prisma f user users keeps stays present here unique =
    let q : User → Bool = λ u. u.id == user.id in
    let p : User → Bool = λ u. (u.id == user.id) && not u.is_deleted in
    let users' = update_where q f users in
    let there = In-update_where q f user users here (==_refl user.id) in
    let fits : p (f user) ≡ true = rw (keeps user, stays user, present, ==_refl user.id) refl in
    let same = count-update_where q q f users (λ u. rw (keeps u) refl) in
    let fewer = count-le-of_imp p q users' (λ u h. ground arith) in
    let one : count p users' ≤ 1 = omega arith in
    elim (Option-cases (prisma.find_first p users')) [
      | inl missing ↦ absurd (
          omega (
            arith,
            In-count p (f user) users' there fits,
            prisma.find_first_complete p users' missing,
          ))
      | inr (x, found) ↦
          let (x_fits, x_there) = prisma.find_first_sound p users' found in
          found ∙ ap some (eq-of_unique p (f user) x users' there x_there fits x_fits one)
    ]

module _ (c : AuthConfig) (prisma : Prisma) {redis : Redis Value} where
  refresh_for-ok :
      (now : ℕ) (fresh : Fresh) (rotated : Rotation) (user : User) (w : Accounts redis)
      → user.is_active ≡ true
      → (refresh_for c prisma now fresh rotated (some user) w).0 ≡ ok rotated.new_refresh_token
  unfolding touch_session cache_session
  refresh_for-ok now fresh rotated user w active =
      let d : AuthDatabase = record w.auth.db {
        device_sessions =
            update_where (λ s. is_value s.refresh_token_id rotated.previous_token_id)
              (λ s. record s { refresh_token_id = some rotated.new_token_id; last_seen_at = now })
              w.auth.db.device_sessions;
      } in
      let w1 : Accounts redis = record w { auth = record w.auth { db = d } } in
      elim (Option-cases
        (prisma.find_first (is_session_of rotated.new_token_id) d.device_sessions)) [
          | inr (s, found) ↦
              let (a, k, built, same) = build_auth_user_lem c now user s.id w1 in ground arith
          | inl missing ↦
              let (id, rows, upserted) =
                upsert_lem c.refresh_ttl now fresh.session_id user.id user.school_id
                  rotated.new_token_id c.unknown_device d in
              let w2 : Accounts redis = record w1 {
                auth = record w1.auth { db = record d { device_sessions = rows } };
              } in
              let (a, k, built, same) = build_auth_user_lem c now user id w2 in ground arith
        ]

  refresh-ok :
      (now : ℕ) (fresh : Fresh) (token : ℕ) (t : RefreshToken) (user : User) (w : Accounts redis)
      → prisma.find_first (is_usable now (c.hash token)) w.auth.db.refresh_tokens ≡ some t
      → prisma.find_first (λ (u : User). (u.id == t.user_id) && not u.is_deleted) w.users
        ≡ some user
      → user.is_active ≡ true
      → (refresh c prisma now fresh token w).0 ≡ ok fresh.token.text
  unfolding refresh
  refresh-ok now fresh token t user w usable found active =
      let rotated : Rotation = record {
        user_id = t.user_id;
        school_id = t.school_id;
        new_refresh_token = fresh.token.text;
        family_id = t.family_id;
        previous_token_id = t.id;
        new_token_id = fresh.token.row_id;
      } in
      let d = rotated_from c.hash prisma c.refresh_ttl now fresh.token t w.auth.db in
      let w1 : Accounts redis = record w { auth = record w.auth { db = d } } in
      let done = rotate-ok c.hash prisma c.refresh_ttl now token fresh.token w.auth.db t usable in
      let rest = refresh_for-ok now fresh rotated user w1 active in ground arith

  -- The refresh token of a login that succeeded gives a new one, until it expires: if no other
  -- token has its hash, and no two users have one identifier.
  pub login-refresh :
      (counters : Counters redis) (now later : ℕ) (fresh again : Fresh) (dto : LoginDto) (ip : ℕ)
      (w : Accounts redis) (r : LoginResult)
      → (login c prisma counters now fresh dto ip w).0 ≡ ok r
      → later < now + c.refresh_ttl
      → count
          (λ (t : RefreshToken). t.token_hash == c.hash fresh.token.text)
          w.auth.db.refresh_tokens
        ≡ 0
      → ((id : ℕ) → count (λ (u : User). u.id == id) w.users ≤ 1)
      → (refresh c prisma later again r.refresh_token
          (login c prisma counters now fresh dto ip w).1).0
        ≡ ok again.token.text
  login-refresh counters now later fresh again dto ip w r h in_time unused unique =
      let (user, here, present, (active, right, text, id, users, tokens)) =
        login-LoggedIn c prisma counters now fresh dto ip w r h in
      let w' = (login c prisma counters now fresh dto ip w).1 in
      let row = new_row c.hash c.refresh_ttl now fresh.token user.id user.school_id none in
      let usable : prisma.find_first (is_usable later (c.hash r.refresh_token))
            w'.auth.db.refresh_tokens
          ≡ some row =
        rw (text, tokens)
          (find_new c prisma now later fresh.token user.id user.school_id w.auth.db.refresh_tokens
            in_time unused) in
      let found : prisma.find_first (λ (u : User). (u.id == user.id) && not u.is_deleted) w'.users
          ≡ some (clear_failures now user) =
        rw users (
          find_updated prisma (clear_failures now) user w.users (λ u. refl) (λ u. refl) present here
            (unique user.id)) in
      refresh-ok later again r.refresh_token row (clear_failures now user) w' usable found active
