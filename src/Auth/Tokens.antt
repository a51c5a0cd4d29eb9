-- ===== src/Auth/Tokens.antt =====
-- services/api/src/auth/services/token.service.ts and refresh-token-validator.service.ts. `hash` is
-- the SHA-256 of `hashToken`, `ttl` the configured life of a refresh token. An issued token comes
-- with its text, its identifier and, for a new family, the family's: `generateOpaqueToken` and
-- `uuidv4` make them up.
use school_van_tracking_saa.Prelude.{
  ℕ, ◌+◌, Option, none, some, Prisma, Action, pure, throw, throw_if, ◌>>=◌, ◌>>◌, find, update,
  update_many, create as create_row, unauthorized, Bool, ltb, ◌==◌, ◌&&◌, get_or,
  invalid_refresh_token, refresh_token_reuse, refresh_token_required,
}
use school_van_tracking_saa.Schema.{SessionStatus, session_eq, revoked}
use school_van_tracking_saa.Redis.{Redis, Value, flag, token_blacklist}
use school_van_tracking_saa.Auth.Store.{
  RefreshToken, AuthDatabase, tokens_table, is_active, active_in_family, active_of_user,
}

-- A token that the code makes up, with the row's identifier.
pub record FreshToken : Type 0 where
  pub text : ℕ
  pub row_id : ℕ
  pub new_family : ℕ

pub record Rotation : Type 0 where
  pub user_id : ℕ
  pub school_id : Option ℕ
  pub new_refresh_token : ℕ
  pub family_id : ℕ
  pub previous_token_id : ℕ
  pub new_token_id : ℕ

pub record RefreshTokenContext : Type 0 where
  pub user_id : ℕ
  pub school_id : Option ℕ
  pub refresh_token_id : ℕ
  pub family_id : ℕ
  pub raw_token : ℕ

abbrev pub revoke_at : ℕ → RefreshToken → RefreshToken
revoke_at now t = record t { status = revoked; revoked_at = some now }

-- `{ tokenHash, status: ACTIVE, expiresAt: { gt: new Date() } }`
abbrev pub is_usable : ℕ → ℕ → RefreshToken → Bool
is_usable now token_hash t = (t.token_hash == token_hash) && is_active t && ltb now t.expires_at

-- `{ tokenHash, status: REVOKED }`
abbrev pub is_used : ℕ → RefreshToken → Bool
is_used token_hash t = (t.token_hash == token_hash) && session_eq t.status revoked

abbrev pub revoke_refresh_token_family : ℕ → ℕ → Action AuthDatabase (Unit {0})
revoke_refresh_token_family now family =
    update_many tokens_table (active_in_family family) (revoke_at now)

abbrev pub revoke_all_user_refresh_tokens : ℕ → ℕ → Action AuthDatabase (Unit {0})
revoke_all_user_refresh_tokens now user =
    update_many tokens_table (active_of_user user) (revoke_at now)

module _ (hash : ℕ → ℕ) where
  abbrev pub new_row : ℕ → ℕ → FreshToken → ℕ → Option ℕ → Option ℕ → RefreshToken
  new_row ttl now fresh user school family = record {
    id = fresh.row_id;
    school_id = school;
    user_id = user;
    token_hash = hash fresh.text;
    family_id = get_or family fresh.new_family;
    expires_at = now + ttl;
    revoked_at = none;
    status = SessionStatus.active;
  }

  -- The result is the row: `token`, `recordId` and `familyId` are read off it.
  abbrev pub issue_refresh_token :
      ℕ → ℕ → FreshToken → ℕ → Option ℕ → Option ℕ → Action AuthDatabase RefreshToken
  issue_refresh_token ttl now fresh user school family =
      create_row tokens_table (new_row ttl now fresh user school family)
      >> pure (new_row ttl now fresh user school family)

  abbrev pub revoke_refresh_token : ℕ → ℕ → Action AuthDatabase (Unit {0})
  revoke_refresh_token now token =
      update_many tokens_table (λ t. (t.token_hash == hash token) && is_active t) (revoke_at now)

  module _ (prisma : Prisma) where
    -- The branch of a token that cannot be used: if it was used before, its family is revoked.
    abbrev refuse : {A : Type 0} → ℕ → Option RefreshToken → Action AuthDatabase A
    refuse now none = throw (unauthorized invalid_refresh_token)
    refuse now (some reused) = do
      revoke_refresh_token_family now reused.family_id
      throw (unauthorized refresh_token_reuse)

    abbrev rotate_existing :
        ℕ → ℕ → FreshToken → ℕ → Option RefreshToken → Action AuthDatabase Rotation
    rotate_existing ttl now fresh token none = do
      reused ← find tokens_table prisma (is_used (hash token))
      refuse now reused
    rotate_existing ttl now fresh token (some existing) = do
      update tokens_table (λ t. t.id == existing.id) (revoke_at now)
      rotated ←
          issue_refresh_token ttl now fresh existing.user_id existing.school_id
            (some existing.family_id)
      pure (record {
        user_id = existing.user_id;
        school_id = existing.school_id;
        new_refresh_token = fresh.text;
        family_id = rotated.family_id;
        previous_token_id = existing.id;
        new_token_id = rotated.id;
      })

    unfoldable pub rotate_refresh_token : ℕ → ℕ → FreshToken → ℕ → Action AuthDatabase Rotation
    rotate_refresh_token ttl now fresh token = do
      existing ← find tokens_table prisma (is_usable now (hash token))
      rotate_existing ttl now fresh token existing

    abbrev validate_found : ℕ → ℕ → Option RefreshToken → Action AuthDatabase RefreshTokenContext
    validate_found now token none = do
      reused ← find tokens_table prisma (is_used (hash token))
      refuse now reused
    validate_found now token (some row) = pure (record {
      user_id = row.user_id;
      school_id = row.school_id;
      refresh_token_id = row.id;
      family_id = row.family_id;
      raw_token = token;
    })

    -- `blank` says whether the text is missing or only spaces.
    unfoldable pub validate : (ℕ → Bool) → ℕ → ℕ → Action AuthDatabase RefreshTokenContext
    validate blank now token = do
      throw_if (blank token) (unauthorized refresh_token_required)
      record_found ← find tokens_table prisma (is_usable now (hash token))
      validate_found now token record_found

module _ (redis : Redis Value) where
  unfoldable pub blacklist_access_token : ℕ → ℕ → ℕ → redis.Store → redis.Store
  blacklist_access_token now jti ttl_seconds c =
      redis.setex c now (token_blacklist jti) ttl_seconds flag
