-- ===== src/Vans/Limits.antt =====
-- The bound of the plan on vans, by `create` of Vans/Service.
use school_van_tracking_saa.Prelude.{
  ℕ, ◌+◌, ◌/◌, ◌<◌, ◌≡◌, refl, inl, inr, true, false, Option, none, some, List, [], ◌∷◌, ◌++◌, any,
  length, length-append, Prisma, Action, pure, ◌>>◌, ok, arith, Option-cases, In-any,
}
use school_van_tracking_saa.Schema.{AuthUser, Van}
use school_van_tracking_saa.Redis.{
  Redis, Value, SubscriptionStatusView, as_status_view, subscription_status,
}
use school_van_tracking_saa.Tenant.Context.{resolve_school_id}
use school_van_tracking_saa.Subscription.Store.{Platform}
use school_van_tracking_saa.Subscription.Service.{
  vans, assert_within_limits, assert_active_subscription, get_subscription_status,
}
use school_van_tracking_saa.Vans.Service.{
  CreateVanDto, has_registration, holds_registration, new_van, create,
}

-- Registrations that no van of the school has, nor a van before in the list.
abbrev pub Unused : ℕ → List (ℕ × CreateVanDto) → List Van → Type 0
Unused school [] rows = Unit
Unused school ((id, dto) ∷ rest) rows =
    (any (holds_registration school dto.registration_no) rows ≡ false)
    × Unused school rest (rows ++ new_van id school dto ∷ [])

module _ (prisma : Prisma) {redis : Redis Value} (now school : ℕ) where
  -- The status of the school in the cache.
  abbrev pub cached_status : Platform redis → Option SubscriptionStatusView
  cached_status w = as_status_view (redis.get w.cache (now / 1000) (subscription_status school))

  limits-cached :
      (v : SubscriptionStatusView) (w : Platform redis)
      → cached_status w ≡ some v
      → v.can_access_platform ≡ true
      → v.usage.vans < v.features.max_vans
      → assert_within_limits prisma now school vans w ≡ (ok tt, w)
  unfolding assert_within_limits assert_active_subscription get_subscription_status
  limits-cached v w cached access below = ground arith

  -- Vans that are created one after the other.
  abbrev pub add_vans : AuthUser → List (ℕ × CreateVanDto) → Action (Platform redis) (Unit {0})
  add_vans user [] = pure tt
  add_vans user ((id, dto) ∷ rest) = create prisma now id user dto >> add_vans user rest

  create-cached :
      (user : AuthUser) (id : ℕ) (dto : CreateVanDto) (v : SubscriptionStatusView)
      (w : Platform redis)
      → resolve_school_id user none ≡ ok school
      → cached_status w ≡ some v
      → v.can_access_platform ≡ true
      → v.usage.vans < v.features.max_vans
      → any (holds_registration school dto.registration_no) w.fleet.vans ≡ false
      → let (answer, w') = create prisma now id user dto w in
        (answer ≡ ok id)
        × (w'.cache ≡ w.cache)
        × (w'.fleet.vans ≡ w.fleet.vans ++ new_van id school dto ∷ [])
  unfolding create
  create-cached user id dto v w own cached access below unused =
      let within = limits-cached v w cached access below in
      let has = has_registration school dto.registration_no in
      elim (Option-cases (prisma.find_first has w.fleet.vans)) [
        | inl free ↦ (ground arith, ground arith, ground arith)
        | inr (x, found) ↦
            let (fits, here) = prisma.find_first_sound has w.fleet.vans found in
            absurd (
              ground (
                arith,
                unused,
                In-any (holds_registration school dto.registration_no) x w.fleet.vans here
                    (ground arith),
              ))
      ]

  -- While a status that allows one more van stands in the cache, any number of vans can be created,
  -- whatever the bound of the plan, if their registrations are new.
  pub add_vans-ok :
      (user : AuthUser) (rows : List (ℕ × CreateVanDto)) (v : SubscriptionStatusView)
      (w : Platform redis)
      → resolve_school_id user none ≡ ok school
      → cached_status w ≡ some v
      → v.can_access_platform ≡ true
      → v.usage.vans < v.features.max_vans
      → Unused school rows w.fleet.vans
      → let (answer, w') = add_vans user rows w in
        (answer ≡ ok tt) × (length w'.fleet.vans ≡ length w.fleet.vans + length rows)
  add_vans-ok user [] v w own cached access below unused = (refl, omega arith)
  add_vans-ok user ((id, dto) ∷ rest) v w own cached access below (first, others) =
      let w1 = (create prisma now id user dto w).1 in
      let (done, same, added) = create-cached user id dto v w own cached access below first in
      let still : cached_status w1 ≡ some v = rw same cached in
      let later : Unused school rest w1.fleet.vans = rw added others in
      let (answer, total) = add_vans-ok user rest v w1 own still access below later in
      let one = length-append w.fleet.vans (new_van id school dto ∷ []) in
      (ground arith, ground arith)
