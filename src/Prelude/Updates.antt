-- ===== src/Prelude/Updates.antt =====
-- Updates of the rows that fit a test, and what they do to counts and membership.
use Prim.Native.Nat.{◌+◌, ◌≤◌, ◌<◌}
use mathlib.Core.Path.{◌≡◌, refl, subst}
use mathlib.Core.Logic.{inl, inr}
use mathlib.Core.Bool.{Bool, true, false}
use mathlib.Core.List.{List, [], ◌∷◌}
use native.Mathlib.Omega.{arith}
use school_van_tracking_saa.Prelude.Tests.{Bool-cases}
use school_van_tracking_saa.Prelude.Lists.{
  In, All, any, count, update_where, count-update_where_mono, All-map, All-In, All-eq_of_unique,
}

-- What holds of each row that an update changes, in terms of the one row that it changes.
pub All-of_unique :
    {A : Type 0} (q : A → Bool) (P : A → Type 0) (a : A) (xs : List A)
    → In a xs
    → q a ≡ true
    → count q xs ≤ 1
    → P a
    → All (λ x. q x ≡ true → P x) xs
All-of_unique q P a xs i h u p =
    All-map (λ x. q x ≡ true → x ≡ a) (λ x. q x ≡ true → P x) xs
      (λ x g fits. let e : x ≡ a = g fits in rw e p) (All-eq_of_unique q a xs i h u)

module _ {A : Type 0} (p q : A → Bool) (f : A → A) where
  -- If no changed row comes to fit, the count does not grow.
  pub count-update_where-le_of_All :
      (xs : List A)
      → All (λ x. q x ≡ true → p (f x) ≡ true → p x ≡ true) xs
      → count p (update_where q f xs) ≤ count p xs
  count-update_where-le_of_All [] h = omega arith
  count-update_where-le_of_All (x ∷ xs) h =
      let rest = count-update_where-le_of_All xs h.1 in let first = h.0 in ground arith

  -- If each changed row comes to fit, they are added to the count.
  pub count-update_where-add :
      (xs : List A)
      → All (λ x. q x ≡ true → (p x ≡ false) × (p (f x) ≡ true)) xs
      → count p (update_where q f xs) ≡ count p xs + count q xs
  count-update_where-add [] h = omega arith
  count-update_where-add (x ∷ xs) h =
      let rest = count-update_where-add xs h.1 in let first = h.0 in ground arith

pub In-any :
    {A : Type 0} (p : A → Bool) (a : A) (xs : List A) → In a xs → p a ≡ true → any p xs ≡ true
In-any p a [] i h = absurd i
In-any p a (x ∷ xs) (inl e) h = rw (← e, h) refl
In-any p a (x ∷ xs) (inr i) h = ground (arith, In-any p a xs i h)

-- An update that unmakes each row it changes, and changes a row that fits, lowers the count.
pub count-update_where-lt :
    {A : Type 0} (p q : A → Bool) (f : A → A) (a : A) (xs : List A)
    → In a xs
    → p a ≡ true
    → q a ≡ true
    → ((x : A) → p (f x) ≡ false)
    → count p (update_where q f xs) < count p xs
count-update_where-lt p q f a [] i ha qa off = absurd i
count-update_where-lt p q f a (x ∷ xs) (inl e) ha qa off =
    let hx : p x ≡ true = subst (λ y. p y ≡ true) e ha in
    let qx : q x ≡ true = subst (λ y. q y ≡ true) e qa in
    let rest : count p (update_where q f xs) ≤ count p xs =
      count-update_where_mono p q f xs (λ y h. absurd (ground (arith, off y))) in
    ground (arith, off x)
count-update_where-lt p q f a (x ∷ xs) (inr i) ha qa off =
    let rest = count-update_where-lt p q f a xs i ha qa off in ground (arith, off x)

-- An update that changes all rows that fit, and unmakes them, leaves none.
pub count-update_where-zero :
    {A : Type 0} (p q : A → Bool) (f : A → A) (xs : List A)
    → ((x : A) → p x ≡ true → q x ≡ true)
    → ((x : A) → p (f x) ≡ false)
    → count p (update_where q f xs) ≡ 0
count-update_where-zero p q f [] all off = refl
count-update_where-zero p q f (x ∷ xs) all off =
    ground (arith, all x, off x, count-update_where-zero p q f xs all off)

pub In-update_where :
    {A : Type 0} (q : A → Bool) (f : A → A) (a : A) (xs : List A)
    → In a xs
    → q a ≡ true
    → In (f a) (update_where q f xs)
In-update_where q f a [] i h = absurd i
In-update_where q f a (x ∷ xs) (inl e) h = inl (rw (← e, h) refl)
In-update_where q f a (x ∷ xs) (inr i) h = inr (In-update_where q f a xs i h)

-- Two rows that fit a test that at most one row fits are the same.
pub eq-of_unique :
    {A : Type 0} (p : A → Bool) (a b : A) (xs : List A)
    → In a xs
    → In b xs
    → p a ≡ true
    → p b ≡ true
    → count p xs ≤ 1
    → b ≡ a
eq-of_unique p a b xs ia ib ha hb u =
    All-In (λ x. p x ≡ true → x ≡ a) b xs (All-eq_of_unique p a xs ia ha u) ib hb

-- A test that some row fits has a row that fits it.
pub any-In :
    {A : Type 0} (p : A → Bool) (xs : List A) → any p xs ≡ true → (a : A) × In a xs × (p a ≡ true)
any-In p [] h = absurd (ground arith)
any-In p (x ∷ xs) h = elim (Bool-cases (p x)) [
  | inl y ↦ (x, inl refl, y)
  | inr n ↦ let (a, i, fits) = any-In p xs (ground arith) in (a, inr i, fits)
]

-- An update that leaves each row that it fits leaves the table.
pub update_where-same :
    {A : Type 0} (q : A → Bool) (f : A → A) (xs : List A)
    → All (λ x. q x ≡ true → f x ≡ x) xs
    → update_where q f xs ≡ xs
update_where-same q f [] h = refl
update_where-same q f (x ∷ xs) h =
    let rest = update_where-same q f xs h.1 in let first = h.0 in ground arith

pub any-update_where :
    {A : Type 0} (p q : A → Bool) (f : A → A) (xs : List A)
    → ((x : A) → p (f x) ≡ p x)
    → any p (update_where q f xs) ≡ any p xs
any-update_where p q f [] h = refl
any-update_where p q f (x ∷ xs) h = ground (arith, h x, any-update_where p q f xs h)
