-- ===== src/Redis/Templates.antt =====
-- The texts of the keys of Redis, as their segments between colons: the templates of
-- services/api/src/fleet/constants/fleet-redis.keys.ts,
-- services/api/src/tracking/redis/tracking-redis.keys.ts,
-- services/api/src/auth/constants/auth.constants.ts,
-- services/api/src/notifications/constants/notification-redis.keys.ts and `schoolKey` of
-- services/api/src/common/tenant/tenant-cache.service.ts. Of the other literals only those that a
-- template distinguishes stand here; identifiers hold no colon and are no literal.
use school_van_tracking_saa.Prelude.{
  ℕ, ◌≡◌, refl, Bool, true, false, List, [], ◌∷◌, arith, ◌==◌, ==_refl, ◌&&◌, ap, ◌∙◌,
}
use school_van_tracking_saa.Schema.{NotificationType}
use school_van_tracking_saa.Redis.{
  RedisKey, driver_van_assignment, van_driver_assignment, route_detail, active_trip,
  driver_active_trip, driver_online, trip_location, van_location, active_trips_set, throttle,
  reconnect_snapshot, last_gps_sample, geofence_dedup, login_attempts, subscription_status,
  usage_counts, session_cache, token_blacklist, permissions_cache, rate_limit, dedup, cooldown,
}

-- The literals of the templates but `school`.
pub data Literal : Type 0 where
  driver van route detail trip location online status_text counts_text : Literal
  active_trip_text active_trips_text subscription usage : Literal
  tracking throttle_text reconnect last_sample geofence sent : Literal
  auth login attempts session blacklist access permissions : Literal
  notify rate dedup_text cooldown_text : Literal

pub data Segment : Type 0 where
  school : Segment
  literal : Literal → Segment
  ident : ℕ → Segment
  kind : NotificationType → Segment

-- `school:<id>:` and what follows
abbrev of_school : ℕ → List Segment → List Segment
of_school id rest = school ∷ ident id ∷ rest

abbrev pub segments : RedisKey → List Segment
segments (driver_van_assignment s d) = of_school s (literal driver ∷ ident d ∷ literal van ∷ [])
segments (van_driver_assignment s v) = of_school s (literal van ∷ ident v ∷ literal driver ∷ [])
segments (route_detail s r) = of_school s (literal route ∷ ident r ∷ literal detail ∷ [])
segments (active_trip s t) = of_school s (literal active_trip_text ∷ ident t ∷ [])
segments (driver_active_trip s d) =
    of_school s (literal driver ∷ ident d ∷ literal active_trip_text ∷ [])
segments (driver_online s d) = of_school s (literal driver ∷ ident d ∷ literal online ∷ [])
segments (trip_location s t) = of_school s (literal trip ∷ ident t ∷ literal location ∷ [])
segments (van_location s v) = of_school s (literal van ∷ ident v ∷ literal location ∷ [])
segments (active_trips_set s) = of_school s (literal active_trips_text ∷ [])
segments (subscription_status s) = of_school s (literal subscription ∷ literal status_text ∷ [])
segments (usage_counts s) = of_school s (literal usage ∷ literal counts_text ∷ [])
segments (throttle t) = literal tracking ∷ literal throttle_text ∷ ident t ∷ []
segments (reconnect_snapshot t) = literal tracking ∷ literal reconnect ∷ ident t ∷ []
segments (last_gps_sample t) = literal tracking ∷ literal last_sample ∷ ident t ∷ []
segments (geofence_dedup t s type) =
    literal geofence ∷ literal sent ∷ ident t ∷ ident s ∷ ident type ∷ []
segments (login_attempts email ip) =
    literal auth ∷ literal login ∷ literal attempts ∷ ident email ∷ ident ip ∷ []
segments (session_cache s) = literal auth ∷ literal session ∷ ident s ∷ []
segments (token_blacklist t) = literal auth ∷ literal blacklist ∷ literal access ∷ ident t ∷ []
segments (permissions_cache u) = literal auth ∷ literal permissions ∷ ident u ∷ []
segments (rate_limit s u type) = literal notify ∷ literal rate ∷ ident s ∷ ident u ∷ kind type ∷ []
segments (dedup s u type scope) =
    literal notify ∷ literal dedup_text ∷ ident s ∷ ident u ∷ kind type ∷ ident scope ∷ []
segments (cooldown s t student type) =
    literal notify ∷ literal cooldown_text ∷ ident s ∷ ident t ∷ ident student ∷ kind type ∷ []

abbrev is_school : Segment → Bool
is_school school = true
is_school (literal w) = false
is_school (ident n) = false
is_school (kind t) = false

abbrev is_ident : ℕ → Segment → Bool
is_ident id school = false
is_ident id (literal w) = false
is_ident id (ident n) = n == id
is_ident id (kind t) = false

-- The glob `school:<id>:*`: a third segment follows, whatever it is.
abbrev pub matches_school : ℕ → List Segment → Bool
matches_school id (x ∷ y ∷ z ∷ rest) = is_school x && is_ident id y
matches_school id (x ∷ y ∷ []) = false
matches_school id (x ∷ []) = false
matches_school id [] = false

-- A key of a school: its text begins with `school:<id>:`.
abbrev pub OfSchool : ℕ → RedisKey → Type 0
OfSchool id k =
    (next : Segment) × (rest : List Segment) × (segments k ≡ school ∷ ident id ∷ next ∷ rest)

is_school-eq : (x : Segment) → is_school x ≡ true → x ≡ school
is_school-eq school h = refl
is_school-eq (literal w) h = absurd (ground arith)
is_school-eq (ident n) h = absurd (ground arith)
is_school-eq (kind t) h = absurd (ground arith)

is_ident-eq : (id : ℕ) (x : Segment) → is_ident id x ≡ true → x ≡ ident id
is_ident-eq id school h = absurd (ground arith)
is_ident-eq id (literal w) h = absurd (ground arith)
is_ident-eq id (ident n) h = let e : n ≡ id = ground arith in ap ident e
is_ident-eq id (kind t) h = absurd (ground arith)

matches-heads :
    (id : ℕ) (xs : List Segment)
    → matches_school id xs ≡ true
    → (next : Segment) × (rest : List Segment) × (xs ≡ school ∷ ident id ∷ next ∷ rest)
matches-heads id (x ∷ y ∷ z ∷ rest) h =
    let e = is_school-eq x (ground arith) in
    let f = is_ident-eq id y (ground arith) in
    (z, rest, ap (λ a. a ∷ y ∷ z ∷ rest) e ∙ ap (λ b. school ∷ b ∷ z ∷ rest) f)
matches-heads id (x ∷ y ∷ []) h = absurd (ground arith)
matches-heads id (x ∷ []) h = absurd (ground arith)
matches-heads id [] h = absurd (ground arith)

pub matches-OfSchool :
    (id : ℕ) (k : RedisKey) → matches_school id (segments k) ≡ true → OfSchool id k
matches-OfSchool id k h = matches-heads id (segments k) h

pub OfSchool-matches :
    (id : ℕ) (k : RedisKey) → OfSchool id k → matches_school id (segments k) ≡ true
OfSchool-matches id k (next, rest, e) = rw e (==_refl id)
