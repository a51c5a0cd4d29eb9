-- ===== src/Auth/Replay.antt =====
-- What happens when a refresh token that was rotated is offered again.
use school_van_tracking_saa.Prelude.{
  ℕ, Bool, ◌≤◌, ◌≡◌, ◌≢◌, refl, sym, subst, inl, inr, true, some, List, [], ◌∷◌, In, count,
  update_where, arith, Prisma, Option-cases, ◌==◌, ==_refl, ok, err, unauthorized,
  refresh_token_reuse, ◌&&◌, count-append, count-update_where-lt, count-update_where-zero,
  count-update_where, count-le-of_imp, In-count, In-update_where, In-append_left, eq-of_unique, ap,
  Result,
}
use school_van_tracking_saa.Auth.Store.{RefreshToken, AuthDatabase, active_in_family, is_active}
use school_van_tracking_saa.Auth.Tokens.{
  FreshToken, Rotation, revoke_at, is_usable, is_used, new_row, rotate_refresh_token,
}
use school_van_tracking_saa.Auth.Families.{rotated_from, rotate-usable, rotate-used, rotate-found}

module _ (hash : ℕ → ℕ) (prisma : Prisma) (ttl now later token : ℕ) (fresh again : FreshToken)
    (d : AuthDatabase)
    (unique : count (λ (x : RefreshToken). x.token_hash == hash token) d.refresh_tokens ≤ 1)
    (other : hash fresh.text ≢ hash token) where
  abbrev has_hash : RefreshToken → Bool
  has_hash x = x.token_hash == hash token

  module _ (t : RefreshToken)
      (found : prisma.find_first (is_usable now (hash token)) d.refresh_tokens ≡ some t) where
    abbrev after : AuthDatabase
    after = rotated_from hash prisma ttl now fresh t d

    abbrev new_token : RefreshToken
    new_token = new_row hash ttl now fresh t.user_id t.school_id (some t.family_id)

    abbrev left : List RefreshToken
    left = update_where (λ x. x.id == t.id) (revoke_at now) d.refresh_tokens

    usable_gone : count (is_usable later (hash token)) after.refresh_tokens ≡ 0
    usable_gone =
        let (fits, here) =
          prisma.find_first_sound (is_usable now (hash token)) d.refresh_tokens found in
        let p : RefreshToken → Bool = λ x. has_hash x && is_active x in
        let less =
          count-update_where-lt p (λ x. x.id == t.id) (revoke_at now) t d.refresh_tokens here
            (ground arith) (==_refl t.id) (λ x. ground arith) in
        let most = count-le-of_imp p has_hash d.refresh_tokens (λ x h. ground arith) in
        let fewer = count-le-of_imp (is_usable later (hash token)) p left (λ x h. ground arith) in
        rw (count-append (is_usable later (hash token)) left (new_token ∷ [])) (ground arith)

    hash_unique : count has_hash after.refresh_tokens ≤ 1
    hash_unique =
        let same =
          count-update_where has_hash (λ x. x.id == t.id) (revoke_at now) d.refresh_tokens
            (λ x. refl) in
        rw (count-append has_hash left (new_token ∷ [])) (ground arith)

    old_token : In (revoke_at now t) after.refresh_tokens
    old_token =
        let (fits, here) =
          prisma.find_first_sound (is_usable now (hash token)) d.refresh_tokens found in
        In-append_left (revoke_at now t) left (new_token ∷ []) (
          In-update_where (λ x. x.id == t.id) (revoke_at now) t d.refresh_tokens here
            (==_refl t.id))

    was_used : is_used (hash token) (revoke_at now t) ≡ true
    was_used =
        let (fits, here) =
          prisma.find_first_sound (is_usable now (hash token)) d.refresh_tokens found in
        ground arith

    replayed :
        ((rotate_refresh_token hash prisma ttl later again token after).0
          ≡ err (unauthorized refresh_token_reuse))
        × (count
              (active_in_family t.family_id)
              (rotate_refresh_token hash prisma ttl later again token after).1.refresh_tokens
            ≡ 0)
    replayed =
        elim (Option-cases
          (prisma.find_first (is_usable later (hash token)) after.refresh_tokens)) [
            | inr (x, s) ↦
                let (fits, here) =
                  prisma.find_first_sound (is_usable later (hash token)) after.refresh_tokens s in
                let some_usable =
                  In-count (is_usable later (hash token)) x after.refresh_tokens here fits in
                absurd (omega (arith, some_usable, usable_gone))
            | inl none_usable ↦
                elim (Option-cases
                  (prisma.find_first (is_used (hash token)) after.refresh_tokens)) [
                    | inl n ↦
                        let some_used =
                          In-count (is_used (hash token)) (revoke_at now t) after.refresh_tokens
                            old_token was_used in
                        let none_used =
                          prisma.find_first_complete (is_used (hash token)) after.refresh_tokens
                            n in
                        absurd (omega (arith, some_used, none_used))
                    | inr (x, s) ↦
                        let (fits, here) =
                          prisma.find_first_sound (is_used (hash token)) after.refresh_tokens s in
                        let has : has_hash (revoke_at now t) ≡ true = ground (arith, was_used) in
                        let same : x ≡ revoke_at now t =
                          eq-of_unique has_hash (revoke_at now t) x after.refresh_tokens old_token
                            here has (ground arith) hash_unique in
                        let family : x.family_id ≡ t.family_id =
                          ap (λ (y : RefreshToken). y.family_id) same in
                        let closed =
                          count-update_where-zero (active_in_family x.family_id)
                            (active_in_family x.family_id) (revoke_at later) after.refresh_tokens
                            (λ y h. h) (λ y. ground arith) in
                        let result =
                          rotate-used hash prisma ttl later token again after x none_usable s in
                        subst
                          (λ (r : Result Rotation × AuthDatabase).
                            (r.0 ≡ err (unauthorized refresh_token_reuse))
                            × (count (active_in_family t.family_id) r.1.refresh_tokens ≡ 0))
                          (sym result)
                          (
                            refl,
                            subst
                                (λ f.
                                  count (active_in_family f) (
                                    update_where (active_in_family x.family_id) (revoke_at later)
                                      after.refresh_tokens)
                                  ≡ 0)
                                family closed,
                          )
                  ]
          ]

  -- A refresh token that was rotated, whose hash no other token has, is refused when it is offered
  -- again at any time, and afterwards no token of its family can be used, the new one included. The
  -- new token's hash is another one.
  pub rotate_refresh_token-replay :
      (r : Rotation)
      → (rotate_refresh_token hash prisma ttl now fresh token d).0 ≡ ok r
      → let d' = (rotate_refresh_token hash prisma ttl now fresh token d).1 in
        ((rotate_refresh_token hash prisma ttl later again token d').0
          ≡ err (unauthorized refresh_token_reuse))
        × (count
              (active_in_family r.family_id)
              (rotate_refresh_token hash prisma ttl later again token d').1.refresh_tokens
            ≡ 0)
  rotate_refresh_token-replay r h =
      let (t, found, family) = rotate-found hash prisma ttl now token fresh d r h in
      rw (rotate-usable hash prisma ttl now token fresh d t found, family) (replayed t found)
