-- ===== src/Auth/GuardRules.antt =====
-- When the guards of roles and permissions let a request through.
use school_van_tracking_saa.Prelude.{
  ◌≡◌, ◌↔◌, ◌⊎◌, refl, sym, inl, inr, true, false, Option, some, List, [], ◌∷◌, In, All, ok, arith,
  In-any, Bool-cases,
}
use school_van_tracking_saa.Schema.{AuthUser, PermissionKey}
use school_van_tracking_saa.Auth.Permissions.{
  PermissionName, resolve_permission_key, Requirements, PermissionKey-discrete, is_yes, same_key,
  holds, holds_all, permissions_of, permissions_guard, roles_guard, has_role-In, In-has_role,
}

is_yes_sound : {P : Type 0} (d : Dec P) → is_yes d ≡ true → P
is_yes_sound (yes p) h = p
is_yes_sound (no n) h = absurd (ground arith)

is_yes_complete : {P : Type 0} (d : Dec P) → P → is_yes d ≡ true
is_yes_complete (yes p) h = refl
is_yes_complete (no n) h = absurd (n h)

List-cases : {A : Type 0} (xs : List A) → (xs ≡ []) ⊎ ((x : A) × (rest : List A) × (xs ≡ x ∷ rest))
List-cases [] = inl refl
List-cases (x ∷ rest) = inr (x, rest, refl)

holds-In : (held : List PermissionKey) (key : PermissionKey) → holds held key ≡ true → In key held
holds-In [] key h = ground arith
holds-In (k ∷ rest) key h = elim (Bool-cases (same_key k key)) [
  | inl y ↦ inl (sym (is_yes_sound (PermissionKey-discrete k key) y))
  | inr n ↦ inr (holds-In rest key (ground arith))
]

In-holds : (held : List PermissionKey) (key : PermissionKey) → In key held → holds held key ≡ true
In-holds held key i =
    In-any (λ k. same_key k key) key held i (is_yes_complete (PermissionKey-discrete key key) refl)

All-holds :
    (held : List PermissionKey) (names : List PermissionName)
    → All (λ name. In (resolve_permission_key name) held) names
    → holds_all held names ≡ true
All-holds held [] a = refl
All-holds held (name ∷ rest) a =
    ground (arith, In-holds held (resolve_permission_key name) a.0, All-holds held rest a.1)

holds_all-All :
    (held : List PermissionKey) (names : List PermissionName)
    → holds_all held names ≡ true
    → All (λ name. In (resolve_permission_key name) held) names
holds_all-All held [] h = tt
holds_all-All held (name ∷ rest) h = (
  holds-In held (resolve_permission_key name) (ground arith),
  holds_all-All held rest (ground arith),
)

-- A handler that is not public is open to a user exactly when he holds each permission that the
-- handler requires, under whichever name it is given.
pub permissions_guard-All :
    (meta : Requirements) (user : Option AuthUser)
    → meta.is_public ≡ false
    → (permissions_guard meta user ≡ ok true)
      ↔ All (λ name. In (resolve_permission_key name) (permissions_of user)) meta.permissions
unfolding permissions_guard
permissions_guard-All meta user open_route = (
  λ h. holds_all-All (permissions_of user) meta.permissions (elim (List-cases meta.permissions) [
    | inl e ↦ ground arith
    | inr (n, rest, e) ↦ ground arith
  ]),
  λ a.
      let all = All-holds (permissions_of user) meta.permissions a in
      elim (List-cases meta.permissions) [ inl e ↦ ground arith | inr (n, rest, e) ↦ ground arith ],
)

-- A handler that is not public is open to a user with one of the roles that it requires, if it
-- requires any.
pub roles_guard-In :
    (meta : Requirements) (user : AuthUser)
    → meta.is_public ≡ false
    → (roles_guard meta (some user) ≡ ok true) ↔ ((meta.roles ≡ []) ⊎ In user.role meta.roles)
unfolding roles_guard
roles_guard-In meta user open_route = elim (List-cases meta.roles) [
  | inl e ↦ (λ h. inl e, λ h. ground arith)
  | inr (r, rest, e) ↦ (
    λ h. inr (In-has_role meta.roles user.role (ground arith)),
    λ h. elim h [
      | inl n ↦ absurd (ground arith)
      | inr i ↦ let has = has_role-In meta.roles user.role i in ground arith
    ],
  )
]
