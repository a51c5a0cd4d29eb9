-- ===== src/Auth/Accounts.antt =====
-- The users, their roles and their schools, with the queries and updates of
-- services/api/src/auth/repositories/auth.repository.ts. Names, phone numbers and e-mail texts that
-- nothing is decided by are left out; an e-mail address is a number, and `lower` its small letters.
use school_van_tracking_saa.Prelude.{
  ℕ, ◌+◌, Bool, true, false, Option, none, some, List, Table, Prisma, Action, pure, find, update,
  ◌>>=◌, ◌==◌, ltb, not, ◌&&◌, ◌||◌, or_else, is_value,
}
use school_van_tracking_saa.Schema.{
  RoleCode, PermissionKey, SchoolOperationalStatus, operational_eq,
}
use school_van_tracking_saa.Redis.{Redis, Value}
use school_van_tracking_saa.Subscription.Store.{School, SchoolSubscription}
use school_van_tracking_saa.Auth.Sessions.{AuthWorld}

pub record User : Type 0 where
  pub id : ℕ
  pub school_id : Option ℕ
  pub email : ℕ
  pub password_hash : ℕ
  pub is_active : Bool
  pub failed_login_attempts : ℕ
  pub locked_until : Option ℕ
  pub password_reset_token_hash : Option ℕ
  pub password_reset_expires_at : Option ℕ
  pub last_login_at : Option ℕ
  pub is_deleted : Bool

-- A row of `UserRoleAssignment` with its role's code and the keys of its `rolePermissions`.
pub record UserRoleAssignment : Type 0 where
  pub user_id : ℕ
  pub role : RoleCode
  pub role_permissions : List PermissionKey

pub record Accounts (redis : Redis Value) : Type 0 where
  pub users : List User
  pub assignments : List UserRoleAssignment
  pub schools : List School
  pub subscriptions : List SchoolSubscription
  pub auth : AuthWorld redis

-- `schoolId: schoolId ?? null`
abbrev pub same_school : Option ℕ → Option ℕ → Bool
same_school none none = true
same_school (some a) (some b) = a == b
same_school _ _ = false

abbrev pub has_login : (ℕ → ℕ) → ℕ → Option ℕ → User → Bool
has_login lower email school u =
    (u.email == lower email) && same_school u.school_id school && not u.is_deleted

-- `passwordResetExpiresAt: { gt: new Date() }`
abbrev pub is_after : Option ℕ → ℕ → Bool
is_after none now = false
is_after (some t) now = ltb now t

abbrev pub has_reset_hash : ℕ → ℕ → User → Bool
has_reset_hash now hash u =
    is_value u.password_reset_token_hash hash
    && is_after u.password_reset_expires_at now
    && not u.is_deleted

abbrev pub clear_failures : ℕ → User → User
clear_failures now u = record u {
  failed_login_attempts = 0;
  locked_until = none;
  last_login_at = some now;
}

-- `...(lockUntil ? { lockedUntil: lockUntil } : {})`
abbrev pub count_failure : Option ℕ → User → User
count_failure lock_until u = record u {
  failed_login_attempts = u.failed_login_attempts + 1;
  locked_until = or_else lock_until u.locked_until;
}

abbrev pub set_password : ℕ → User → User
set_password password_hash u = record u {
  password_hash = password_hash;
  password_reset_token_hash = none;
  password_reset_expires_at = none;
  failed_login_attempts = 0;
  locked_until = none;
}

abbrev pub set_reset_token : ℕ → ℕ → User → User
set_reset_token token_hash expires_at u = record u {
  password_reset_token_hash = some token_hash;
  password_reset_expires_at = some expires_at;
}

abbrev pub is_school_login_allowed : SchoolOperationalStatus → Bool → Bool
is_school_login_allowed status is_active =
    is_active
    && (operational_eq status SchoolOperationalStatus.active
        || operational_eq status SchoolOperationalStatus.trial)

module _ {redis : Redis Value} where
  abbrev pub users_table : Table (Accounts redis) User
  users_table = record { rows = λ d. d.users; with_rows = λ r d. record d { users = r } }

  abbrev schools_of : Table (Accounts redis) School
  schools_of = record { rows = λ d. d.schools; with_rows = λ r d. record d { schools = r } }

  abbrev pub subscriptions_of : Table (Accounts redis) SchoolSubscription
  subscriptions_of = record {
    rows = λ d. d.subscriptions;
    with_rows = λ r d. record d { subscriptions = r };
  }

  -- What the services of tokens and sessions do.
  abbrev pub on_auth : {A : Type 0} → Action (AuthWorld redis) A → Action (Accounts redis) A
  on_auth m w = let (r, a) = m w.auth in (r, record w { auth = a })

  -- What a service does to Redis alone.
  abbrev pub on_keys : {A : Type 0} → Action redis.Store A → Action (Accounts redis) A
  on_keys m =
      on_auth (λ (a : AuthWorld redis). let (r, c) = m a.cache in (r, record a { cache = c }))

  abbrev pub update_user : ℕ → (User → User) → Action (Accounts redis) (Unit {0})
  update_user id f = update users_table (λ u. u.id == id) f

  module _ (prisma : Prisma) where
    abbrev pub find_school_by_id : ℕ → Action (Accounts redis) (Option School)
    find_school_by_id school =
        find schools_of prisma (λ (s : School). (s.id == school) && not s.is_deleted)

    abbrev find_school_by_code : ℕ → Action (Accounts redis) (Option School)
    find_school_by_code code =
        find schools_of prisma (λ (s : School). (s.code == code) && s.is_active && not s.is_deleted)

    abbrev pub find_user_by_password_reset_hash : ℕ → ℕ → Action (Accounts redis) (Option User)
    find_user_by_password_reset_hash now hash = find users_table prisma (has_reset_hash now hash)

    -- `AuthService.findUserForLogin`: in the school of the code, or among users without a school.
    abbrev find_in_school : (ℕ → ℕ) → ℕ → Option School → Action (Accounts redis) (Option User)
    find_in_school lower email none = pure none
    find_in_school lower email (some school) =
        find users_table prisma (has_login lower email (some school.id))

    unfoldable pub find_user_for_login :
        (ℕ → ℕ) → ℕ → Option ℕ → Action (Accounts redis) (Option User)
    find_user_for_login lower email none = find users_table prisma (has_login lower email none)
    find_user_for_login lower email (some code) = do
      school ← find_school_by_code code
      find_in_school lower email school
