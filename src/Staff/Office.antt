-- ===== src/Staff/Office.antt =====
-- The state that the services of drivers and parents share, and the account that
-- services/api/src/drivers/services/drivers.service.ts and
-- services/api/src/parents/services/parents.service.ts create for a driver and a parent in the same
-- way. Names and phone numbers are left out; an e-mail address is a number, and `lower` its small
-- letters. One cache and one log of audits are seen by all services.
use school_van_tracking_saa.Prelude.{
  ℕ, Bool, true, false, Option, none, some, List, [], any, Table, Prisma, Result, ok, err, Action,
  pure, throw_if, gets, find, update, create as create_row, ◌>>=◌, ◌>>◌, ◌==◌, not, ◌&&◌, is_some,
  conflict, email_registered, unique_violation,
}
use school_van_tracking_saa.Schema.{RoleCode, PermissionKey, role_eq, Database}
use school_van_tracking_saa.Redis.{Redis, Value}
use school_van_tracking_saa.Fleet.World.{World}
use school_van_tracking_saa.Subscription.Store.{Platform}
use school_van_tracking_saa.Auth.Store.{AuthDatabase}
use school_van_tracking_saa.Auth.Accounts.{User, UserRoleAssignment, Accounts, same_school}

-- A row of `Role` with the keys of its `rolePermissions`.
pub record Role : Type 0 where
  pub school_id : Option ℕ
  pub code : RoleCode
  pub permissions : List PermissionKey
  pub is_deleted : Bool

pub record Office (redis : Redis Value) : Type 0 where
  pub platform : Platform redis
  pub users : List User
  pub assignments : List UserRoleAssignment
  pub roles : List Role
  -- the users with a row of `NotificationPreference`, with its `enabled`
  pub preferences : List (ℕ × Bool)
  pub auth_db : AuthDatabase

-- The account of a new user, as `prisma.user.create` fills it in.
abbrev pub new_user : ℕ → ℕ → ℕ → ℕ → User
new_user id school email password_hash = record {
  id = id;
  school_id = some school;
  email = email;
  password_hash = password_hash;
  is_active = true;
  failed_login_attempts = 0;
  locked_until = none;
  password_reset_token_hash = none;
  password_reset_expires_at = none;
  last_login_at = none;
  is_deleted = false;
}

-- `{ schoolId, code, deletedAt: null }`
abbrev is_role : ℕ → RoleCode → Role → Bool
is_role school code r =
    same_school r.school_id (some school) && role_eq r.code code && not r.is_deleted

-- `{ email, schoolId }`
abbrev pub has_email : ℕ → ℕ → User → Bool
has_email school email u = (u.email == email) && same_school u.school_id (some school)

module _ {redis : Redis Value} where
  abbrev pub office_users : Table (Office redis) User
  office_users = record { rows = λ o. o.users; with_rows = λ r o. record o { users = r } }

  abbrev office_roles : Table (Office redis) Role
  office_roles = record { rows = λ o. o.roles; with_rows = λ r o. record o { roles = r } }

  abbrev office_assignments : Table (Office redis) UserRoleAssignment
  office_assignments = record {
    rows = λ o. o.assignments;
    with_rows = λ r o. record o { assignments = r };
  }

  abbrev pub on_platform : {A : Type 0} → Action (Platform redis) A → Action (Office redis) A
  on_platform m o = let (r, p) = m o.platform in (r, record o { platform = p })

  abbrev pub on_tables : {A : Type 0} → Action Database A → Action (Office redis) A
  on_tables m =
      on_platform (λ (p : Platform redis). let (r, d) = m p.fleet in (r, record p { fleet = d }))

  -- What the fleet services do; they leave no notices here.
  abbrev pub on_world : {A : Type 0} → Action (World redis) A → Action (Office redis) A
  on_world m = on_platform (λ (p : Platform redis).
      let (r, x) = m (record { db = p.fleet; cache = p.cache; notices = [] }) in
      (r, record p { fleet = x.db; cache = x.cache }))

  -- What the services of authentication see.
  abbrev pub accounts_of : Office redis → Accounts redis
  accounts_of o = record {
    users = o.users;
    assignments = o.assignments;
    schools = o.platform.schools;
    subscriptions = o.platform.subscriptions;
    auth = record {
      db = o.auth_db;
      cache = o.platform.cache;
      audit_log = o.platform.fleet.audit_log;
    };
  }

  abbrev or_create_role : ℕ → RoleCode → Option Role → Action (Office redis) Role
  or_create_role school code (some role) = pure role
  or_create_role school code none = do
    taken ← gets (λ (o : Office redis).
        any (λ (r : Role). same_school r.school_id (some school) && role_eq r.code code) o.roles)
    throw_if taken unique_violation
    create_row office_roles
        (record { school_id = some school; code = code; permissions = []; is_deleted = false })
    pure (record { school_id = some school; code = code; permissions = []; is_deleted = false })

  -- The role, the user and the assignment of the transaction; the profile comes after them.
  abbrev pub create_account : Prisma → ℕ → RoleCode → User → Action (Office redis) (Unit {0})
  create_account prisma school code row = do
    found ← find office_roles prisma (is_role school code)
    role ← or_create_role school code found
    taken ← gets (λ (o : Office redis). any (has_email school row.email) o.users)
    throw_if taken unique_violation
    create_row office_users row
    create_row office_assignments
        (record { user_id = row.id; role = role.code; role_permissions = role.permissions })

  abbrev roll_back : {A : Type 0} → Office redis → Result A → Office redis → Office redis
  roll_back before (ok a) after = after
  roll_back before (err e) after = before

  -- `prisma.$transaction`: what fails changes nothing.
  abbrev pub transaction : {A : Type 0} → Action (Office redis) A → Action (Office redis) A
  transaction m o = let (r, o') = m o in (r, roll_back o r o')

  -- `{ where: { id }, data: { isActive: false } }`
  abbrev pub deactivate : ℕ → Action (Office redis) (Unit {0})
  deactivate user = update office_users (λ u. u.id == user) (λ u. record u { is_active = false })

  abbrev pub check_email : Prisma → ℕ → ℕ → Action (Office redis) (Unit {0})
  check_email prisma school email = do
    existing ← find office_users prisma (λ u. has_email school email u && not u.is_deleted)
    throw_if (is_some existing) (conflict email_registered)
