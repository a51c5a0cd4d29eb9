-- ===== src/Auth/Families.antt =====
-- Families of refresh tokens in services/api/src/auth/services/token.service.ts.
use school_van_tracking_saa.Prelude.{
  ℕ, ◌≤◌, ◌≡◌, refl, inl, inr, true, Bool, none, some, [], ◌∷◌, ◌++◌, count, update_where, arith,
  Prisma, Option-cases, ◌==◌, ==_refl, In-any, ◌⊎◌, count-append, ok, err, unauthorized,
  refresh_token_reuse, Bool-cases, subst, sym, count-update_where_mono, count-update_where-lt,
}
use school_van_tracking_saa.Auth.Store.{RefreshToken, AuthDatabase, active_in_family}
use school_van_tracking_saa.Auth.Tokens.{
  FreshToken, revoke_at, is_usable, is_used, new_row, Rotation, rotate_refresh_token,
  revoke_refresh_token_family,
}

-- No family has two tokens that can be used.
abbrev pub Single : AuthDatabase → Type 0
Single d = (family : ℕ) → count (active_in_family family) d.refresh_tokens ≤ 1

module _ (hash : ℕ → ℕ) (prisma : Prisma) (ttl : ℕ) where
  -- The state after the rotation of a token that can be used.
  abbrev pub rotated_from : ℕ → FreshToken → RefreshToken → AuthDatabase → AuthDatabase
  rotated_from now fresh t d = record d {
    refresh_tokens =
        update_where (λ x. x.id == t.id) (revoke_at now) d.refresh_tokens
        ++ new_row hash ttl now fresh t.user_id t.school_id (some t.family_id) ∷ [];
  }

  module _ (now token : ℕ) (fresh : FreshToken) (d : AuthDatabase) where
    pub rotate-usable :
        (t : RefreshToken)
        → prisma.find_first (is_usable now (hash token)) d.refresh_tokens ≡ some t
        → (rotate_refresh_token hash prisma ttl now fresh token d).1 ≡ rotated_from now fresh t d
    unfolding rotate_refresh_token
    rotate-usable t found =
        let (fits, here) =
          prisma.find_first_sound (is_usable now (hash token)) d.refresh_tokens found in
        let same : (t.id == t.id) ≡ true = ==_refl t.id in
        let present = In-any (λ (x : RefreshToken). x.id == t.id) t d.refresh_tokens here same in
        ground arith

    -- A rotation that succeeds has found a token, and stays in its family.
    pub rotate-found :
        (r : Rotation)
        → (rotate_refresh_token hash prisma ttl now fresh token d).0 ≡ ok r
        → (t : RefreshToken) × (prisma.find_first (is_usable now (hash token)) d.refresh_tokens
            ≡ some t)
          × (r.family_id ≡ t.family_id)
    unfolding rotate_refresh_token
    rotate-found r h =
        elim (Option-cases (prisma.find_first (is_usable now (hash token)) d.refresh_tokens)) [
          | inr (t, found) ↦ (t, found, ground arith)
          | inl missing ↦ absurd (ground arith)
        ]

    pub rotate-used :
        (t : RefreshToken)
        → prisma.find_first (is_usable now (hash token)) d.refresh_tokens ≡ none
        → prisma.find_first (is_used (hash token)) d.refresh_tokens ≡ some t
        → rotate_refresh_token hash prisma ttl now fresh token d ≡ (
          err (unauthorized refresh_token_reuse),
          (revoke_refresh_token_family now t.family_id d).1,
        )
    unfolding rotate_refresh_token
    rotate-used t missing used = rw (missing, used) refl

    -- The state after a token that cannot be used was offered.
    pub rotate-refused :
        prisma.find_first (is_usable now (hash token)) d.refresh_tokens ≡ none
        → ((rotate_refresh_token hash prisma ttl now fresh token d).1 ≡ d)
          ⊎ ((t : RefreshToken) × ((rotate_refresh_token hash prisma ttl now fresh token d).1
                ≡ (revoke_refresh_token_family now t.family_id d).1))
    unfolding rotate_refresh_token
    rotate-refused missing =
        elim (Option-cases (prisma.find_first (is_used (hash token)) d.refresh_tokens)) [
          | inl n ↦ inl (ground arith)
          | inr (t, s) ↦ inr (t, ground arith)
        ]

-- Any revocation keeps the families single.
revoke-Single :
    (q : RefreshToken → Bool) (now : ℕ) (d : AuthDatabase)
    → Single d
    → Single (record d { refresh_tokens = update_where q (revoke_at now) d.refresh_tokens })
revoke-Single q now d single family =
    let le =
      count-update_where_mono (active_in_family family) q (revoke_at now) d.refresh_tokens
        (λ x h. absurd (ground arith)) in
    omega (arith, le, single family)

issue-Single :
    (d : AuthDatabase) (t : RefreshToken)
    → Single d
    → count (active_in_family t.family_id) d.refresh_tokens ≡ 0
    → Single (record d { refresh_tokens = d.refresh_tokens ++ t ∷ [] })
issue-Single d t single none_yet family = elim (Bool-cases (t.family_id == family)) [
  | inl y ↦
      let same : t.family_id ≡ family = ground arith in
      let zero = subst (λ g. count (active_in_family g) d.refresh_tokens ≡ 0) same none_yet in
      rw (count-append (active_in_family family) d.refresh_tokens (t ∷ [])) (ground arith)
  | inr n ↦
      rw (count-append (active_in_family family) d.refresh_tokens (t ∷ []))
        (ground (arith, single family))
]

module _ (hash : ℕ → ℕ) (prisma : Prisma) (ttl now token : ℕ) (fresh : FreshToken)
    (d : AuthDatabase) (single : Single d) where
  rotated_from-Single :
      (t : RefreshToken)
      → prisma.find_first (is_usable now (hash token)) d.refresh_tokens ≡ some t
      → Single (rotated_from hash prisma ttl now fresh t d)
  rotated_from-Single t found =
      let (fits, here) =
        prisma.find_first_sound (is_usable now (hash token)) d.refresh_tokens found in
      let less =
        count-update_where-lt (active_in_family t.family_id) (λ x. x.id == t.id) (revoke_at now) t
          d.refresh_tokens here (ground (arith, ==_refl t.family_id)) (==_refl t.id)
          (λ x. ground arith) in
      issue-Single
        (record d {
          refresh_tokens = update_where (λ x. x.id == t.id) (revoke_at now) d.refresh_tokens;
        })
        (new_row hash ttl now fresh t.user_id t.school_id (some t.family_id))
        (revoke-Single (λ x. x.id == t.id) now d single) (omega (arith, less, single t.family_id))

  -- If no family has two tokens that can be used, this is so after a rotation, whether it succeeds,
  -- finds no token or detects the use of an old one.
  pub rotate_refresh_token-Single :
      Single (rotate_refresh_token hash prisma ttl now fresh token d).1
  rotate_refresh_token-Single =
      elim (Option-cases (prisma.find_first (is_usable now (hash token)) d.refresh_tokens)) [
        | inr (t, found) ↦
            subst Single (sym (rotate-usable hash prisma ttl now token fresh d t found))
              (rotated_from-Single t found)
        | inl missing ↦ elim (rotate-refused hash prisma ttl now token fresh d missing) [
          | inl same ↦ subst Single (sym same) single
          | inr (t, e) ↦
              subst Single (sym e) (revoke-Single (active_in_family t.family_id) now d single)
        ]
      ]
