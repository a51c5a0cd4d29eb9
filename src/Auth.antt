-- ===== src/Auth.antt =====
-- Authentication: services/api/src/auth.
pub mod Store
pub mod Tokens
pub mod Families
pub mod Replay
pub mod Sessions
pub mod Closing
pub mod Permissions
pub mod GuardRules
pub mod LoginProtection
pub mod Lockout
pub mod Accounts
pub mod Grants
pub mod Login
pub mod Renewal
pub mod Passwords
pub mod Recovery
pub mod SignIn
pub mod RoundTrip
