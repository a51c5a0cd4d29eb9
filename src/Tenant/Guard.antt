-- ===== src/Tenant/Guard.antt =====
-- services/api/src/auth/guards/tenant.guard.ts. The decorators of the handler and its class are a
-- record; the parts of the request that `extractSchoolId` reads are another. A text is a number, and
-- 0 is the empty text, which is no identifier but may stand in a request.
use school_van_tracking_saa.Prelude.{
  ℕ, ◌≡◌, ◌≢◌, ◌↔◌, ◌⊎◌, Bool, true, false, Option, none, some, Action, pure, throw, modify, ◌>>◌,
  List, [], ◌∷◌, All, refl, sym, ◌∙◌, subst, inl, inr, ◌<◌, ◌&&◌, Option-cases, Bool-cases, ok, err,
  forbidden, arith, ◌==◌, not, if◌then◌else◌, or_else, tenant_required, cross_tenant,
}
use school_van_tracking_saa.Schema.{AuthUser, super_admin, role_eq}

pub record HandlerMeta : Type 0 where
  pub is_public : Bool
  pub tenant_scoped : Bool

pub record Request : Type 0 where
  pub user : Option AuthUser
  pub params_id : Option ℕ
  pub params_school_id : Option ℕ
  pub query_school_id : Option ℕ
  pub body_school_id : Option ℕ
  pub header_school_id : Option ℕ
  pub tenant_school_id : Option ℕ

unfoldable pub extract_school_id : Request → Option ℕ
extract_school_id r = or_else r.params_id (
    or_else r.params_school_id
      (or_else r.query_school_id (or_else r.body_school_id r.header_school_id)))

abbrev set_tenant : Option ℕ → Action Request (Unit {0})
set_tenant school = modify (λ r. record r { tenant_school_id = school })

-- The end of `canActivate`, for a user with a school.
abbrev check_requested : ℕ → Option ℕ → Action Request Bool
check_requested own none = pure true
check_requested own (some requested) =
    if not (requested == 0) && not (requested == own)
    then throw (forbidden cross_tenant)
    else pure true

abbrev in_school : HandlerMeta → ℕ → Action Request Bool
in_school meta own r =
    (set_tenant (some own)
        >> (if not meta.tenant_scoped
            then pure true
            else check_requested own (extract_school_id r)))
      r

abbrev in_tenant : HandlerMeta → Option ℕ → Action Request Bool
in_tenant meta none r = (err (forbidden tenant_required), r)
in_tenant meta (some own) r =
    if own == 0 then (err (forbidden tenant_required), r) else in_school meta own r

abbrev with_user : HandlerMeta → Option AuthUser → Action Request Bool
with_user meta none r = (ok true, r)
with_user meta (some user) r =
    if role_eq user.role super_admin
    then (set_tenant (or_else (extract_school_id r) user.school_id) >> pure true) r
    else in_tenant meta user.school_id r

unfoldable pub can_activate : HandlerMeta → Action Request Bool
unfolding extract_school_id
can_activate meta r = if meta.is_public then (ok true, r) else with_user meta r.user r

module _ (meta : HandlerMeta) (r : Request) (user : AuthUser) where
  -- A handler that is not public and lets a user of a tenant in has the tenant of the request set
  -- to the user's own school, which exists.
  pub can_activate-own_school :
      meta.is_public ≡ false
      → r.user ≡ some user
      → user.role ≢ super_admin
      → (can_activate meta r).0 ≡ ok true
      → ((can_activate meta r).1.tenant_school_id ≡ user.school_id) × (user.school_id ≢ none)
  unfolding can_activate
  can_activate-own_school open_route is_user tenant passed = (ground arith, ground arith)

-- The places of a request that may name a school, in the order of their precedence.
abbrev pub places : Request → List (Option ℕ)
places r =
    r.params_id ∷ r.params_school_id ∷ r.query_school_id ∷ r.body_school_id ∷ r.header_school_id
    ∷ []

-- The first of the places that is given holds this text.
pub data FirstGiven : List (Option ℕ) → ℕ → Type 0 where
  here : {v : ℕ} {rest : List (Option ℕ)} → FirstGiven (some v ∷ rest) v
  later : {v : ℕ} {rest : List (Option ℕ)} → FirstGiven rest v → FirstGiven (none ∷ rest) v

first_of : List (Option ℕ) → Option ℕ
first_of [] = none
first_of (x ∷ rest) = or_else x (first_of rest)

first_of-eq_some : {v : ℕ} {xs : List (Option ℕ)} → FirstGiven xs v → first_of xs ≡ some v
unfolding first_of
first_of-eq_some here = refl
first_of-eq_some (later i) = first_of-eq_some i

FirstGiven-of_eq : {v : ℕ} (xs : List (Option ℕ)) → first_of xs ≡ some v → FirstGiven xs v
unfolding first_of
FirstGiven-of_eq [] h = absurd (ground arith)
FirstGiven-of_eq {v} (some a ∷ rest) h =
    let e : a ≡ v = ground arith in subst (λ b. FirstGiven (some a ∷ rest) b) e here
FirstGiven-of_eq (none ∷ rest) h = later (FirstGiven-of_eq rest h)

or_else-none : (x : Option ℕ) → or_else x none ≡ x
or_else-none none = refl
or_else-none (some a) = refl

-- The order in which the code reads the places is theirs.
extract_school_id-first : (r : Request) → extract_school_id r ≡ first_of (places r)
unfolding extract_school_id first_of
extract_school_id-first r = rw (or_else-none r.header_school_id) refl

none_given : (xs : List (Option ℕ)) → All (λ x. x ≡ none) xs → first_of xs ≡ none
unfolding first_of
none_given [] h = refl
none_given (x ∷ rest) (e, h) = rw e (none_given rest h)

none_given-of_eq : (xs : List (Option ℕ)) → first_of xs ≡ none → All (λ x. x ≡ none) xs
unfolding first_of
none_given-of_eq [] h = tt
none_given-of_eq (some a ∷ rest) h = absurd (ground arith)
none_given-of_eq (none ∷ rest) h = (refl, none_given-of_eq rest h)

-- Who is let in, independently of the code.
pub data MayPass (meta : HandlerMeta) (r : Request) : Type 0 where
  public : meta.is_public ≡ true → MayPass meta r
  anonymous : r.user ≡ none → MayPass meta r
  platform : (user : AuthUser) → r.user ≡ some user → user.role ≡ super_admin → MayPass meta r
  unscoped :
      (user : AuthUser) (own : ℕ)
      → r.user ≡ some user
      → user.school_id ≡ some own
      → 0 < own
      → meta.tenant_scoped ≡ false
      → MayPass meta r
  unnamed :
      (user : AuthUser) (own : ℕ)
      → r.user ≡ some user
      → user.school_id ≡ some own
      → 0 < own
      → All (λ x. x ≡ none) (places r)
      → MayPass meta r
  named :
      (user : AuthUser) (own v : ℕ)
      → r.user ≡ some user
      → user.school_id ≡ some own
      → 0 < own
      → FirstGiven (places r) v
      → (v ≡ 0) ⊎ (v ≡ own)
      → MayPass meta r

module _ (meta : HandlerMeta) (r : Request) where
  passes : MayPass meta r → (can_activate meta r).0 ≡ ok true
  unfolding can_activate
  passes (public h) = ground arith
  passes (anonymous h) = ground arith
  passes (platform user h is_super) = ground arith
  passes (unscoped user own h school given open_route) = ground arith
  passes (unnamed user own h school given all) =
      let e = extract_school_id-first r ∙ none_given (places r) all in ground arith
  passes (named user own v h school given first fits) =
      let e = extract_school_id-first r ∙ first_of-eq_some first in ground arith

  scoped_passes :
      (user : AuthUser) (own : ℕ)
      → meta.is_public ≡ false
      → meta.tenant_scoped ≡ true
      → r.user ≡ some user
      → role_eq user.role super_admin ≡ false
      → user.school_id ≡ some own
      → 0 < own
      → (can_activate meta r).0 ≡ ok true
      → MayPass meta r
  unfolding can_activate
  scoped_passes user own closed scoped is_user tenant school given h =
      elim (Option-cases (extract_school_id r)) [
        | inl e ↦
            unnamed user own is_user school given
              (none_given-of_eq (places r) (sym (extract_school_id-first r) ∙ e))
        | inr (v, e) ↦
            named user own v is_user school given
              (FirstGiven-of_eq (places r) (sym (extract_school_id-first r) ∙ e)) (ground arith)
      ]

  tenant_passes :
      (user : AuthUser)
      → meta.is_public ≡ false
      → r.user ≡ some user
      → role_eq user.role super_admin ≡ false
      → (can_activate meta r).0 ≡ ok true
      → MayPass meta r
  unfolding can_activate
  tenant_passes user closed is_user tenant h = elim (Option-cases user.school_id) [
    | inl e ↦ absurd (ground arith)
    | inr (own, school) ↦
        let given : 0 < own = ground arith in
        elim (Bool-cases meta.tenant_scoped) [
          | inl scoped ↦ scoped_passes user own closed scoped is_user tenant school given h
          | inr open_route ↦ unscoped user own is_user school given open_route
        ]
  ]

  -- The guard lets a request in exactly when its handler is public, or it has no user, or its user
  -- is a super admin, or its user has a school and either the handler is not tenant-scoped, or
  -- none of the places that may name a school is given, or the first that is given is empty or the
  -- user's school. The places are, in this order, the parameters `id` and `schoolId`, the query, the
  -- body and the header.
  pub can_activate_iff : ((can_activate meta r).0 ≡ ok true) ↔ MayPass meta r
  unfolding can_activate
  can_activate_iff = (
    λ h. elim (Bool-cases meta.is_public) [
      | inl y ↦ public y
      | inr closed ↦ elim (Option-cases r.user) [
        | inl e ↦ anonymous e
        | inr (user, is_user) ↦ elim (Bool-cases (role_eq user.role super_admin)) [
          | inl y ↦ platform user is_user (ground arith)
          | inr tenant ↦ tenant_passes user closed is_user tenant h
        ]
      ]
    ],
    passes,
  )
