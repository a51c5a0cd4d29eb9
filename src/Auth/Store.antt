-- ===== src/Auth/Store.antt =====
-- The tables of authentication: `RefreshToken` and `DeviceSession` of
-- services/api/prisma/schema.prisma, with the columns that the modelled services decide by.
use school_van_tracking_saa.Prelude.{ℕ, Option, List, Table, ◌==◌, ◌&&◌, Bool}
use school_van_tracking_saa.Schema.{SessionStatus, session_eq}

pub record RefreshToken : Type 0 where
  pub id : ℕ
  pub school_id : Option ℕ
  pub user_id : ℕ
  pub token_hash : ℕ
  pub family_id : ℕ
  pub expires_at : ℕ
  pub revoked_at : Option ℕ
  pub status : SessionStatus

pub record DeviceSession : Type 0 where
  pub id : ℕ
  pub school_id : Option ℕ
  pub user_id : ℕ
  pub device_id : ℕ
  pub refresh_token_id : Option ℕ
  pub status : SessionStatus
  pub last_seen_at : ℕ
  pub expires_at : ℕ

pub record AuthDatabase : Type 0 where
  pub refresh_tokens : List RefreshToken
  pub device_sessions : List DeviceSession

abbrev pub tokens_table : Table AuthDatabase RefreshToken
tokens_table = record {
  rows = λ d. d.refresh_tokens;
  with_rows = λ r d. record d { refresh_tokens = r };
}

abbrev pub sessions_table : Table AuthDatabase DeviceSession
sessions_table = record {
  rows = λ d. d.device_sessions;
  with_rows = λ r d. record d { device_sessions = r };
}

abbrev pub is_active : RefreshToken → Bool
is_active t = session_eq t.status SessionStatus.active

abbrev pub active_in_family : ℕ → RefreshToken → Bool
active_in_family family t = (t.family_id == family) && is_active t

abbrev pub active_of_user : ℕ → RefreshToken → Bool
active_of_user user t = (t.user_id == user) && is_active t
