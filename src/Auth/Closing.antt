-- ===== src/Auth/Closing.antt =====
-- `logoutAll` of services/api/src/auth/services/auth.service.ts: what it leaves in the database and
-- in Redis.
use school_van_tracking_saa.Prelude.{
  ℕ, ◌+◌, ◌/◌, ◌<◌, ◌≡◌, ◌≢◌, refl, subst, inl, inr, true, Bool, none, some, List, [], ◌∷◌, In,
  count, filter, update_where, arith, ◌==◌, ap, ◌∙◌, count-update_where-zero, Bool-cases,
  Option-cases,
}
use school_van_tracking_saa.Schema.{AuthUser}
use school_van_tracking_saa.Redis.{
  Redis, RedisKey, Value, session_cache, token_blacklist, flag, as_session,
}
use school_van_tracking_saa.Auth.Store.{DeviceSession, active_of_user}
use school_van_tracking_saa.Auth.Tokens.{revoke_at, blacklist_access_token}
use school_van_tracking_saa.Auth.Sessions.{
  AuthWorld, open_of_user, close, del_sessions, get_cached_session, logout_all,
}

module _ (redis : Redis Value) (now : ℕ) where
  -- What is gone from Redis stays gone while more sessions are deleted.
  del_sessions-none :
      (id : ℕ) (ss : List DeviceSession) (c : redis.Store)
      → redis.get c now (session_cache id) ≡ none
      → redis.get (del_sessions redis ss c) now (session_cache id) ≡ none
  del_sessions-none id [] c h = h
  del_sessions-none id (s ∷ rest) c h =
      del_sessions-none id rest (redis.del c (session_cache s.id)) (elim (Bool-cases (id == s.id)) [
        | inl y ↦
            let same : s.id ≡ id = ground arith in
            subst (λ i. redis.get (redis.del c (session_cache s.id)) now (session_cache i) ≡ none)
              same (redis.get-del_self c now (session_cache s.id))
        | inr n ↦
            redis.get-del_ne c now (session_cache s.id) (session_cache id)
              (λ e. absurd (ground arith))
            ∙ h
      ])

  del_sessions-get_ne :
      (k : RedisKey) (ss : List DeviceSession) (c : redis.Store)
      → ((id : ℕ) → k ≢ session_cache id)
      → redis.get (del_sessions redis ss c) now k ≡ redis.get c now k
  del_sessions-get_ne k [] c ne = refl
  del_sessions-get_ne k (s ∷ rest) c ne =
      del_sessions-get_ne k rest (redis.del c (session_cache s.id)) ne
      ∙ redis.get-del_ne c now (session_cache s.id) k (ne s.id)

  -- No session of the list is cached after its deletion.
  pub del_sessions-gone :
      (ss : List DeviceSession) (c : redis.Store) (s : DeviceSession)
      → In s ss
      → get_cached_session redis now s.id (del_sessions redis ss c) ≡ none
  unfolding get_cached_session
  del_sessions-gone [] c s i = absurd i
  del_sessions-gone (x ∷ rest) c s (inl e) = ap as_session (
      del_sessions-none s.id rest (redis.del c (session_cache x.id))
        (rw e (redis.get-del_self c now (session_cache x.id))))
  del_sessions-gone (x ∷ rest) c s (inr i) =
      del_sessions-gone rest (redis.del c (session_cache x.id)) s i

-- The sessions that a user has open.
abbrev sessions_of : {redis : Redis Value} → AuthUser → AuthWorld redis → List DeviceSession
sessions_of user w = filter (open_of_user user.id) w.db.device_sessions

pub In-filter :
    {A : Type 0} (p : A → Bool) (a : A) (xs : List A) → In a xs → p a ≡ true → In a (filter p xs)
In-filter p a [] i h = absurd i
In-filter p a (x ∷ xs) (inl e) h = rw (← e, h) (inl refl)
In-filter p a (x ∷ xs) (inr i) h =
    let rest = In-filter p a xs i h in
    elim (Bool-cases (p x)) [ inl y ↦ rw y (inr rest) | inr n ↦ rw n rest ]

module _ {redis : Redis Value} (now access_ttl : ℕ) (user : AuthUser) (w : AuthWorld redis) where
  -- The tables after a logout of all devices.
  logout_all-db : (logout_all now access_ttl user w).1.db ≡ record {
    refresh_tokens = update_where (active_of_user user.id) (revoke_at now) w.db.refresh_tokens;
    device_sessions = update_where (open_of_user user.id) close w.db.device_sessions;
  }
  unfolding logout_all
  logout_all-db = elim (Option-cases user.jti) [
    | inl e ↦ ground arith
    | inr (jti, e) ↦ ground arith
  ]

  -- After a logout of all devices no refresh token and no device session of the user is active.
  pub logout_all-count :
      let d = (logout_all now access_ttl user w).1.db in
      (count (active_of_user user.id) d.refresh_tokens ≡ 0)
      × (count (open_of_user user.id) d.device_sessions ≡ 0)
  logout_all-count = rw logout_all-db (
    count-update_where-zero (active_of_user user.id) (active_of_user user.id) (revoke_at now)
        w.db.refresh_tokens (λ x h. h) (λ x. ground arith),
    count-update_where-zero (open_of_user user.id) (open_of_user user.id) close w.db.device_sessions
        (λ x h. h) (λ x. ground arith),
  )

  -- The store after a logout of all devices.
  logout_all-cache :
      (jti : ℕ)
      → user.jti ≡ some jti
      → (logout_all now access_ttl user w).1.cache
        ≡ del_sessions redis
            (sessions_of user w)
            (blacklist_access_token redis (now / 1000) jti access_ttl w.cache)
  unfolding logout_all
  logout_all-cache jti e = ground arith

  -- After a logout of all devices no session that the user had open is found in the cache, and the
  -- access token is on the black list for its life.
  pub logout_all-cleared :
      (jti later : ℕ) (s : DeviceSession)
      → user.jti ≡ some jti
      → later < now / 1000 + access_ttl
      → In s w.db.device_sessions
      → open_of_user user.id s ≡ true
      → let c = (logout_all now access_ttl user w).1.cache in
        (get_cached_session redis later s.id c ≡ none)
        × (redis.get c later (token_blacklist jti) ≡ some flag)
  unfolding blacklist_access_token
  logout_all-cleared jti later s has in_time i live =
      let c = blacklist_access_token redis (now / 1000) jti access_ttl w.cache in
      let listed = In-filter (open_of_user user.id) s w.db.device_sessions i live in
      rw (logout_all-cache jti has) (
        del_sessions-gone redis later (sessions_of user w) c s listed,
        del_sessions-get_ne redis later (token_blacklist jti) (sessions_of user w) c (λ id e. cc)
            ∙ redis.get-setex_self w.cache (now / 1000) later access_ttl (token_blacklist jti) flag
                in_time,
      )
