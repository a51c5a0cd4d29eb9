-- ===== src/Tests/AuthRuns.antt =====
-- Runs of the services of authentication.
use school_van_tracking_saa.Prelude.{
  ℕ, ◌+◌, ◌≡◌, refl, inl, none, some, [], ◌∷◌, count, arith, err, unauthorized, refresh_token_reuse,
}
use school_van_tracking_saa.Schema.{AuthUser, SessionStatus}
use school_van_tracking_saa.Redis.{token_blacklist, flag}
use school_van_tracking_saa.Auth.Store.{RefreshToken, DeviceSession, AuthDatabase, active_in_family}
use school_van_tracking_saa.Auth.Tokens.{FreshToken, Rotation, rotate_refresh_token}
use school_van_tracking_saa.Auth.Families.{Single, rotate_refresh_token-Single}
use school_van_tracking_saa.Auth.Replay.{rotate_refresh_token-replay}
use school_van_tracking_saa.Auth.Sessions.{AuthWorld, logout_all, get_cached_session}
use school_van_tracking_saa.Auth.Closing.{logout_all-cleared}
use school_van_tracking_saa.Tests.Clients.{first_row, key_space, empty_space}
use school_van_tracking_saa.Tests.School.{admin}

-- A hash without collisions.
abbrev shift : ℕ → ℕ
shift n = n + 1000

abbrev token : RefreshToken
token = record {
  id = 1;
  school_id = some 1;
  user_id = 40;
  token_hash = 1007;
  family_id = 70;
  expires_at = 9000;
  revoked_at = none;
  status = SessionStatus.active;
}

abbrev laptop : DeviceSession
laptop = record {
  id = 900;
  school_id = some 1;
  user_id = 40;
  device_id = 3;
  refresh_token_id = some 1;
  status = SessionStatus.active;
  last_seen_at = 100;
  expires_at = 9000;
}

abbrev signed_in : AuthDatabase
signed_in = record { refresh_tokens = token ∷ []; device_sessions = laptop ∷ [] }

abbrev next_token : FreshToken
next_token = record { text = 8; row_id = 2; new_family = 71 }

abbrev third_token : FreshToken
third_token = record { text = 9; row_id = 3; new_family = 72 }

abbrev rotation : Rotation
rotation = record {
  user_id = 40;
  school_id = some 1;
  new_refresh_token = 8;
  family_id = 70;
  previous_token_id = 1;
  new_token_id = 2;
}

rotate_refresh_token-Single_example :
    Single (rotate_refresh_token shift first_row 5000 200 next_token 7 signed_in).1
rotate_refresh_token-Single_example =
    rotate_refresh_token-Single shift first_row 5000 200 7 next_token signed_in
      (λ family. ground arith)

rotate_refresh_token-replay_example :
    let d' = (rotate_refresh_token shift first_row 5000 200 next_token 7 signed_in).1 in
    ((rotate_refresh_token shift first_row 5000 300 third_token 7 d').0
      ≡ err (unauthorized refresh_token_reuse))
    × (count
          (active_in_family 70)
          (rotate_refresh_token shift first_row 5000 300 third_token 7 d').1.refresh_tokens
        ≡ 0)
unfolding rotate_refresh_token
rotate_refresh_token-replay_example =
    rotate_refresh_token-replay shift first_row 5000 200 300 7 next_token third_token signed_in
      (omega arith) (λ e. omega (arith, e)) rotation refl

abbrev on_line : AuthWorld key_space
on_line = record { db = signed_in; cache = empty_space; audit_log = [] }

abbrev admin_with_token : AuthUser
admin_with_token = record admin { jti = some 55 }

logout_all-cleared_example :
    let c = (logout_all {redis = key_space} 4000 900 admin_with_token on_line).1.cache in
    (get_cached_session key_space 600 900 c ≡ none)
    × (key_space.get c 600 (token_blacklist 55) ≡ some flag)
logout_all-cleared_example =
    logout_all-cleared {redis = key_space} 4000 900 admin_with_token on_line 55 600 laptop refl
      (omega arith) (inl refl) refl
