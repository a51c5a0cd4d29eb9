-- ===== src/Tenant/Store.antt =====
-- The tenant of a request as the Prisma client sees it: `use` of
-- services/api/src/common/middleware/tenant.middleware.ts, which sets the store of
-- services/api/src/prisma/tenant-context.store.ts, and the condition that
-- services/api/prisma/extensions/tenant-soft-delete.extension.ts adds to the reads and updates of
-- the models of a tenant. Express applies the middleware before the guards have set `req.user`, so
-- the handlers of HTTP requests run without a store, and the other modules leave it out.
use school_van_tracking_saa.Prelude.{
  ℕ, Bool, true, false, Option, none, some, ◌==◌, ◌||◌, if◌then◌else◌,
}
use school_van_tracking_saa.Schema.{AuthUser, super_admin, role_eq}

pub record TenantStore : Type 0 where
  pub school_id : ℕ
  pub bypass_tenant_scope : Bool

abbrev store_of : Bool → Option ℕ → Option ℕ → Option TenantStore
store_of is_super (some requested) own =
    if is_super
    then some (record { school_id = requested; bypass_tenant_scope = false })
    else elim own [
      | none ↦ none
      | some school ↦ some (record { school_id = school; bypass_tenant_scope = false })
    ]
store_of is_super none none = none
store_of is_super none (some school) =
    some (record { school_id = school; bypass_tenant_scope = is_super })

-- The store for a request with this user and this `x-school-id`, of which the empty text counts as
-- none.
abbrev pub tenant_store : Option AuthUser → Option ℕ → Option TenantStore
tenant_store none header = none
tenant_store (some user) header = store_of (role_eq user.role super_admin) header user.school_id

-- What the extension asks of the school of a row.
abbrev pub in_scope : Option TenantStore → ℕ → Bool
in_scope none school = true
in_scope (some store) school = store.bypass_tenant_scope || (school == store.school_id)
