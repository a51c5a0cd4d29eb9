-- ===== src/Auth/Permissions.antt =====
-- Roles and permissions: services/api/src/auth/constants/permissions.ts,
-- services/permission.service.ts and guards/roles.guard.ts and permissions.guard.ts.
use school_van_tracking_saa.Prelude.{
  ℕ, ◌≤◌, ◌≡◌, inl, inr, Bool, true, false, Option, none, some, List, [], ◌∷◌, In, any, not, ◌&&◌,
  Result, ok, err, forbidden, insufficient_role, missing_permissions, if◌then◌else◌, arith,
  Bool-cases,
}
use school_van_tracking_saa.Schema.{
  RoleCode, super_admin, school_admin, driver, parent, role_eq, AuthUser, PermissionKey,
  schools_manage, schools_view, drivers_create, drivers_manage, students_create, students_manage,
  parents_manage, vans_manage, routes_manage, trips_track, trips_manage, reports_view, users_manage,
  subscriptions_manage, notifications_send,
}

-- A permission as a decorator may spell it: by its constant, by an alias, or canonically.
pub data PermissionName : Type 0 where
  constant canonical : PermissionKey → PermissionName
  create_school manage_school create_driver create_student manage_routes : PermissionName
  manage_tracking view_reports send_notifications : PermissionName

abbrev pub resolve_permission_key : PermissionName → PermissionKey
resolve_permission_key (constant key) = key
resolve_permission_key (canonical key) = key
resolve_permission_key create_school = schools_manage
resolve_permission_key manage_school = schools_manage
resolve_permission_key create_driver = drivers_create
resolve_permission_key create_student = students_create
resolve_permission_key manage_routes = routes_manage
resolve_permission_key manage_tracking = trips_track
resolve_permission_key view_reports = reports_view
resolve_permission_key send_notifications = notifications_send

-- `ROLE_PERMISSION_MAP`
abbrev pub role_permissions : RoleCode → List PermissionKey
role_permissions super_admin =
    schools_manage ∷ schools_view ∷ drivers_create ∷ drivers_manage ∷ students_create
    ∷ students_manage ∷ parents_manage ∷ vans_manage ∷ routes_manage ∷ trips_track ∷ trips_manage
    ∷ reports_view ∷ users_manage ∷ subscriptions_manage ∷ notifications_send ∷ []
role_permissions school_admin =
    drivers_create ∷ drivers_manage ∷ students_create ∷ students_manage ∷ parents_manage
    ∷ vans_manage ∷ routes_manage ∷ trips_manage ∷ trips_track ∷ reports_view ∷ users_manage ∷ []
role_permissions driver = trips_track ∷ []
role_permissions parent = trips_track ∷ []

abbrev pub has_role : List RoleCode → RoleCode → Bool
has_role roles role = any (λ r. role_eq r role) roles

abbrev first_of : List RoleCode → List RoleCode → RoleCode
first_of [] [] = parent
first_of [] (role ∷ _) = role
first_of (role ∷ rest) roles = if has_role roles role then role else first_of rest roles

-- `ROLE_PRIORITY`
abbrev role_priority : List RoleCode
role_priority = super_admin ∷ school_admin ∷ driver ∷ parent ∷ []

unfoldable pub resolve_primary_role : List RoleCode → RoleCode
resolve_primary_role roles = first_of role_priority roles

-- How far a role is from the top.
abbrev pub rank : RoleCode → ℕ
rank super_admin = 0
rank school_admin = 1
rank driver = 2
rank parent = 3

pub has_role-In :
    (roles : List RoleCode) (role : RoleCode) → In role roles → has_role roles role ≡ true
has_role-In [] role i = absurd i
has_role-In (r ∷ rest) role (inl e) = ground arith
has_role-In (r ∷ rest) role (inr i) = ground (arith, has_role-In rest role i)

pub In-has_role :
    (roles : List RoleCode) (role : RoleCode) → has_role roles role ≡ true → In role roles
In-has_role [] role h = ground arith
In-has_role (r ∷ rest) role h = elim (Bool-cases (role_eq r role)) [
  | inl y ↦ inl (ground arith)
  | inr n ↦ inr (In-has_role rest role (ground arith))
]

-- The primary role of a user with roles is one of them, and none of them is higher.
pub resolve_primary_role-rank :
    (roles : List RoleCode) (role : RoleCode)
    → In role roles
    → In (resolve_primary_role roles) roles × (rank (resolve_primary_role roles) ≤ rank role)
unfolding resolve_primary_role
resolve_primary_role-rank roles role i =
    let has = has_role-In roles role i in
    let member : has_role roles (resolve_primary_role roles) ≡ true = ground arith in
    (In-has_role roles (resolve_primary_role roles) member, ground arith)

-- The decorators of a handler, and what `RolesGuard` and `PermissionsGuard` make of a user.
pub record Requirements : Type 0 where
  pub is_public : Bool
  pub roles : List RoleCode
  pub permissions : List PermissionName

abbrev user_role_in : List RoleCode → Option AuthUser → Bool
user_role_in roles none = false
user_role_in roles (some user) = has_role roles user.role

abbrev pub check_roles : List RoleCode → Option AuthUser → Result Bool
check_roles [] user = ok true
check_roles (r ∷ rest) user =
    if not (user_role_in (r ∷ rest) user) then err (forbidden insufficient_role) else ok true

unfoldable pub roles_guard : Requirements → Option AuthUser → Result Bool
roles_guard meta user = if meta.is_public then ok true else check_roles meta.roles user

unfoldable pub PermissionKey-discrete : Discrete PermissionKey
PermissionKey-discrete = hlevel

abbrev pub is_yes : {P : Type 0} → Dec P → Bool
is_yes (yes _) = true
is_yes (no _) = false

abbrev pub same_key : PermissionKey → PermissionKey → Bool
same_key a b = is_yes (PermissionKey-discrete a b)

-- `Set.has`
abbrev pub holds : List PermissionKey → PermissionKey → Bool
holds held key = any (λ k. same_key k key) held

abbrev pub holds_all : List PermissionKey → List PermissionName → Bool
holds_all held [] = true
holds_all held (name ∷ rest) = holds held (resolve_permission_key name) && holds_all held rest

abbrev pub permissions_of : Option AuthUser → List PermissionKey
permissions_of none = []
permissions_of (some user) = user.permissions

abbrev pub check_permissions : List PermissionName → Option AuthUser → Result Bool
check_permissions [] user = ok true
check_permissions (n ∷ rest) user =
    if not (holds_all (permissions_of user) (n ∷ rest))
    then err (forbidden missing_permissions)
    else ok true

unfoldable pub permissions_guard : Requirements → Option AuthUser → Result Bool
permissions_guard meta user =
    if meta.is_public then ok true else check_permissions meta.permissions user
