-- ===== src/Fleet/Validation.antt =====
-- services/api/src/fleet/utils/geo-validation.util.ts and paginated-result.util.ts. A coordinate is
-- an integer number of units of 10^-8 degree, the precision that the database keeps.
use school_van_tracking_saa.Prelude.{
  ℕ, ◌+◌, ◌-◌, ◌*◌, ◌/◌, ◌≤◌, ◌<◌, ◌≡◌, ◌⊎◌, ◌↔◌, ◌||◌, Option, none, some, Result, ok, err,
  bad_request, arith, ℤ, pos, negsuc, ◌≤ℤ◌, ltb_ℤ, if◌then◌else◌, requires_both,
  latitude_out_of_range, longitude_out_of_range, ltb, List, ap,
}
use native.Mathlib.Nat.{div-add-mod}

abbrev check_range : ℤ → ℤ → Result (Unit {0})
check_range latitude longitude =
    if ltb_ℤ latitude (negsuc 8999999999) || ltb_ℤ (pos 9000000000) latitude
    then err (bad_request latitude_out_of_range)
    else if ltb_ℤ longitude (negsuc 17999999999) || ltb_ℤ (pos 18000000000) longitude
    then err (bad_request longitude_out_of_range)
    else ok tt

unfoldable pub assert_valid_coordinates : Option ℤ → Option ℤ → Result (Unit {0})
assert_valid_coordinates none none = ok tt
assert_valid_coordinates (some latitude) (some longitude) = check_range latitude longitude
assert_valid_coordinates _ _ = err (bad_request requires_both)

-- A latitude of at most 90 degrees and a longitude of at most 180, on either side of 0.
abbrev pub OnGlobe : ℤ → ℤ → Type 0
OnGlobe latitude longitude =
    (negsuc 8999999999 ≤ℤ latitude)
    × (latitude ≤ℤ pos 9000000000)
    × (negsuc 17999999999 ≤ℤ longitude)
    × (longitude ≤ℤ pos 18000000000)

abbrev pub ValidCoordinates : Option ℤ → Option ℤ → Type 0
ValidCoordinates none none = Unit
ValidCoordinates (some latitude) (some longitude) = OnGlobe latitude longitude
ValidCoordinates _ _ = ⊥

-- Coordinates are accepted exactly when both are missing, or both are given and lie on the globe.
pub assert_valid_coordinates_iff :
    (latitude longitude : Option ℤ)
    → (assert_valid_coordinates latitude longitude ≡ ok tt) ↔ ValidCoordinates latitude longitude
unfolding assert_valid_coordinates
assert_valid_coordinates_iff none none = (λ _. tt, λ _. ground arith)
assert_valid_coordinates_iff none (some y) = (λ h. ground arith, λ h. absurd h)
assert_valid_coordinates_iff (some x) none = (λ h. ground arith, λ h. absurd h)
assert_valid_coordinates_iff (some x) (some y) = (λ h. ground arith, λ h. ground arith)

pub record PaginatedMeta : Type 0 where
  pub total : ℕ
  pub page : ℕ
  pub limit : ℕ
  pub total_pages : ℕ

-- `Math.ceil(total / limit)`, for a limit above 0.
abbrev ceil_div : ℕ → ℕ → ℕ
ceil_div total limit = (total + limit - 1) / limit

ceil_div-pred :
    (total limit : ℕ)
    → 0 < limit
    → 0 < ceil_div total limit
    → (ceil_div total limit - 1) * limit < total
ceil_div-pred total limit h p =
    let q : ℕ = ceil_div total limit in
    let e : q * limit ≡ (q - 1 + 1) * limit = ap (λ (t : ℕ). t * limit) (omega arith) in
    omega (arith, e, div-add-mod (total + limit - 1) limit)

unfoldable pub build_paginated_result {ℓ} :
    {T : Type ℓ} → List T → ℕ → ℕ → ℕ → List T × PaginatedMeta
build_paginated_result items total page limit =
    let pages = ceil_div total limit in
    (
      items,
      record {
        total = total;
        page = page;
        limit = limit;
        total_pages = if ltb pages 1 then 1 else pages;
      },
    )

-- The pages hold all items and there is no page too many, but that there is always one page.
pub build_paginated_result-total_pages :
    {T : Type 0} (items : List T) (total page limit : ℕ)
    → 0 < limit
    → let pages = (build_paginated_result items total page limit).1.total_pages in
      (total ≤ pages * limit) × ((pages ≡ 1) ⊎ ((pages - 1) * limit < total))
unfolding build_paginated_result
build_paginated_result-total_pages items total page limit h =
    (grind arith, ground (arith, ceil_div-pred total limit h))
