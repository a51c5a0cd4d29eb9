-- ===== src/Auth/Passwords.antt =====
-- Passwords of services/api/src/auth/services/auth.service.ts: `changePassword`, `forgotPassword`
-- and `resetPassword`. The reset token that `forgotPassword` makes up is a parameter; the code sends
-- it nowhere yet.
use school_van_tracking_saa.Prelude.{
  ◌&&◌, ℕ, ◌+◌, ◌*◌, Option, none, some, Prisma, Action, pure, throw_if, or_throw, find, ◌>>=◌,
  ◌>>◌, ◌==◌, not, unauthorized, bad_request, no_user, current_password_incorrect,
  invalid_reset_token,
}
use school_van_tracking_saa.Schema.{AuthUser, AuditAction}
use school_van_tracking_saa.Redis.{Redis, Value}
use school_van_tracking_saa.Auth.Tokens.{revoke_all_user_refresh_tokens}
use school_van_tracking_saa.Auth.Sessions.{on_auth_db, audit, revoke_all_user_sessions}
use school_van_tracking_saa.Auth.Accounts.{
  User, Accounts, users_table, on_auth, update_user, find_user_by_password_reset_hash,
  find_user_for_login, set_password, set_reset_token,
}
use school_van_tracking_saa.Auth.Login.{AuthConfig, entry}

module _ (c : AuthConfig) (prisma : Prisma) {redis : Redis Value} where
  -- The steps that a change and a reset of a password share.
  abbrev pub replace_password : ℕ → ℕ → Option ℕ → ℕ → Action (Accounts redis) (Unit {0})
  replace_password now user school new_password = do
    update_user user (set_password (c.hash_password new_password))
    on_auth (on_auth_db (revoke_all_user_refresh_tokens now user))
    on_auth (revoke_all_user_sessions user)
    on_auth (audit (entry AuditAction.update school user user))

  unfoldable pub change_password : ℕ → AuthUser → ℕ → ℕ → Action (Accounts redis) (Unit {0})
  change_password now user current_password new_password = do
    found ← find users_table prisma (λ u. (u.id == user.id) && not u.is_deleted)
    db_user ← or_throw found (unauthorized no_user)
    throw_if (not (c.verify current_password db_user.password_hash))
        (unauthorized current_password_incorrect)
    replace_password now user.id user.school_id new_password

  abbrev give_token : ℕ → ℕ → Option User → Action (Accounts redis) (Unit {0})
  give_token now reset_token none = pure tt
  give_token now reset_token (some user) =
      update_user user.id
        (set_reset_token (c.hash reset_token) (now + c.password_reset_minutes * 60 * 1000))

  -- The answer is the same message in either case.
  unfoldable forgot_password : ℕ → ℕ → ℕ → Option ℕ → Action (Accounts redis) (Unit {0})
  forgot_password now reset_token email school_code = do
    user ← find_user_for_login prisma c.lower email school_code
    give_token now reset_token user

  unfoldable pub reset_password : ℕ → ℕ → ℕ → Action (Accounts redis) (Unit {0})
  reset_password now reset_token new_password = do
    found ← find_user_by_password_reset_hash prisma now (c.hash reset_token)
    user ← or_throw found (bad_request invalid_reset_token)
    replace_password now user.id user.school_id new_password
