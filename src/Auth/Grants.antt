-- ===== src/Auth/Grants.antt =====
-- `getUserRoles`, `getUserPermissions` and `invalidateUserPermissions` of
-- services/api/src/auth/services/permission.service.ts.
use school_van_tracking_saa.Prelude.{
  ℕ, ◌/◌, Option, none, some, List, [], ◌∷◌, ◌++◌, map, filter, Action, pure, gets, modify, ◌>>=◌,
  ◌>>◌, ◌==◌, if◌then◌else◌,
}
use school_van_tracking_saa.Schema.{RoleCode, PermissionKey}
use school_van_tracking_saa.Redis.{
  Redis, Value, permission_keys, as_permission_keys, permissions_cache,
}
use school_van_tracking_saa.Auth.Permissions.{role_permissions, holds}
use school_van_tracking_saa.Auth.Accounts.{UserRoleAssignment, Accounts, on_keys}

-- `[...new Set(keys)]`, added to what is there
abbrev add_distinct : List PermissionKey → List PermissionKey → List PermissionKey
add_distinct acc [] = acc
add_distinct acc (k ∷ rest) = add_distinct (if holds acc k then acc else acc ++ k ∷ []) rest

abbrev from_db : List UserRoleAssignment → List PermissionKey
from_db [] = []
from_db (a ∷ rest) = a.role_permissions ++ from_db rest

abbrev from_role_map : List UserRoleAssignment → List PermissionKey
from_role_map [] = []
from_role_map (a ∷ rest) = role_permissions a.role ++ from_role_map rest

abbrev pub assignments_of : {redis : Redis Value} → ℕ → Accounts redis → List UserRoleAssignment
assignments_of user w = filter (λ a. a.user_id == user) w.assignments

unfoldable pub permissions_from : List UserRoleAssignment → List PermissionKey
permissions_from rows = add_distinct [] (from_db rows ++ from_role_map rows)

module _ {redis : Redis Value} where
  unfoldable pub get_user_roles : ℕ → Accounts redis → List RoleCode
  get_user_roles user w = map (λ (a : UserRoleAssignment). a.role) (assignments_of user w)

  abbrev cached_or_load :
      ℕ → ℕ → ℕ → Option (List PermissionKey) → Action (Accounts redis) (List PermissionKey)
  cached_or_load ttl now user (some cached) = pure cached
  cached_or_load ttl now user none = do
    rows ← gets (assignments_of {redis = redis} user)
    on_keys (
        modify (λ (c : redis.Store).
          redis.setex c (now / 1000) (permissions_cache user) ttl
            (permission_keys (permissions_from rows))))
    pure (permissions_from rows)

  -- `ttl` is `auth.permissionsCacheTtlSeconds`.
  unfoldable pub get_user_permissions : ℕ → ℕ → ℕ → Action (Accounts redis) (List PermissionKey)
  get_user_permissions ttl now user = do
    cached ← gets (λ (w : Accounts redis).
        as_permission_keys (redis.get w.auth.cache (now / 1000) (permissions_cache user)))
    cached_or_load ttl now user cached

  unfoldable invalidate_user_permissions : ℕ → Action (Accounts redis) (Unit {0})
  invalidate_user_permissions user =
      on_keys (modify (λ (c : redis.Store). redis.del c (permissions_cache user)))
