-- ===== src/Tenant/Context.antt =====
-- services/api/src/common/tenant/tenant-context.service.ts
use school_van_tracking_saa.Prelude.{
  ℕ, ◌≡◌, ◌≢◌, ◌↔◌, ◌⊎◌, Option, none, some, Result, ok, err, forbidden, arith, ◌==◌, not,
  if◌then◌else◌, school_id_required, tenant_required, cross_tenant, super_admin_required,
}
use school_van_tracking_saa.Schema.{AuthUser, super_admin, role_eq}

-- The branch for a super admin: a requested school goes before the user's own.
abbrev resolve_as_super_admin : Option ℕ → Option ℕ → Result ℕ
resolve_as_super_admin (some requested) own = ok requested
resolve_as_super_admin none (some own) = ok own
resolve_as_super_admin none none = err (forbidden school_id_required)

abbrev resolve_in_tenant : Option ℕ → Option ℕ → Result ℕ
resolve_in_tenant none requested = err (forbidden tenant_required)
resolve_in_tenant (some own) none = ok own
resolve_in_tenant (some own) (some requested) =
    if not (requested == own) then err (forbidden cross_tenant) else ok own

unfoldable pub resolve_school_id : AuthUser → Option ℕ → Result ℕ
resolve_school_id user requested =
    if role_eq user.role super_admin
    then resolve_as_super_admin requested user.school_id
    else resolve_in_tenant user.school_id requested

unfoldable pub assert_super_admin : AuthUser → Result (Unit {0})
assert_super_admin user =
    if not (role_eq user.role super_admin) then err (forbidden super_admin_required) else ok tt

-- For anyone but a super admin an operation works on a school exactly when that is the user's own
-- and no other was asked for.
pub resolve_school_id-own_iff :
    (user : AuthUser) (requested : Option ℕ) (school : ℕ)
    → user.role ≢ super_admin
    → (resolve_school_id user requested ≡ ok school)
      ↔ ((user.school_id ≡ some school) × ((requested ≡ none) ⊎ (requested ≡ some school)))
unfolding resolve_school_id
resolve_school_id-own_iff user requested school ne = (λ h. ground arith, λ h. ground arith)

-- What an operation without a requested school works on is the user's own school.
pub resolve_school_id-none :
    (user : AuthUser) {school : ℕ}
    → resolve_school_id user none ≡ ok school
    → user.school_id ≡ some school
unfolding resolve_school_id
resolve_school_id-none user h = ground arith
