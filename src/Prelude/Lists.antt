-- ===== src/Prelude/Lists.antt =====
-- Lists as tables of rows: membership, predicates, counting and updating the rows that fit a test.
use Prim.Native.Nat.{ℕ, suc, ◌+◌, ◌≤◌, ◌<◌}
use mathlib.Core.Path.{◌≡◌, refl, sym}
use mathlib.Core.Logic.{◌⊎◌, inl, inr}
use mathlib.Core.Bool.{Bool, true, false, not, ◌&&◌, ◌||◌}
use mathlib.Core.List.{List, [], ◌∷◌, ◌++◌}
use native.Mathlib.Omega.{arith}
use school_van_tracking_saa.Prelude.Tests.{if◌then◌else◌, Bool-cases}

-- Membership, by recursion, so that the tactics take it apart.
abbrev pub In : {A : Type 0} → A → List A → Type 0
In a [] = ⊥
In a (x ∷ xs) = (a ≡ x) ⊎ In a xs

module _ {ℓ} {A : Type ℓ} where
  abbrev pub length : List A → ℕ
  length [] = 0
  length (x ∷ xs) = suc (length xs)

  abbrev pub All {κ} : (A → Type κ) → List A → Type κ
  All P [] = Unit
  All P (x ∷ xs) = P x × All P xs

  abbrev pub any : (A → Bool) → List A → Bool
  any p [] = false
  any p (x ∷ xs) = p x || any p xs

  -- How many rows fit the test.
  abbrev pub count : (A → Bool) → List A → ℕ
  count p [] = 0
  count p (x ∷ xs) = (if p x then 1 else 0) + count p xs

  abbrev pub filter : (A → Bool) → List A → List A
  filter p [] = []
  filter p (x ∷ xs) = let rest = filter p xs in if p x then x ∷ rest else rest

  -- The change is made in each row that fits the test.
  abbrev pub update_where : (A → Bool) → (A → A) → List A → List A
  update_where p f [] = []
  update_where p f (x ∷ xs) = (if p x then f x else x) ∷ update_where p f xs

module _ {ℓ} {A : Type ℓ} where
  pub length-append : (xs ys : List A) → length (xs ++ ys) ≡ length xs + length ys
  length-append [] ys = omega arith
  length-append (x ∷ xs) ys = omega (arith, length-append xs ys)

  pub count-append : (p : A → Bool) (xs ys : List A) → count p (xs ++ ys) ≡ count p xs + count p ys
  count-append p [] ys = omega arith
  count-append p (x ∷ xs) ys = omega (arith, count-append p xs ys)

  pub length-update_where :
      (q : A → Bool) (f : A → A) (xs : List A) → length (update_where q f xs) ≡ length xs
  length-update_where q f [] = refl
  length-update_where q f (x ∷ xs) = omega (arith, length-update_where q f xs)

  -- An update adds at most the rows that it changes to a count.
  pub count-update_where-le :
      (p q : A → Bool) (f : A → A) (xs : List A)
      → count p (update_where q f xs) ≤ count p xs + count q xs
  count-update_where-le p q f [] = omega arith
  count-update_where-le p q f (x ∷ xs) = ground (arith, count-update_where-le p q f xs)

  -- The rows that fit after an update fitted before and were left alone, or were changed.
  pub count-update_where-split :
      (p q : A → Bool) (f : A → A) (xs : List A)
      → count p (update_where q f xs) ≤ count (λ x. p x && not (q x)) xs + count q xs
  count-update_where-split p q f [] = omega arith
  count-update_where-split p q f (x ∷ xs) = ground (arith, count-update_where-split p q f xs)

  -- An update after which a row fits the test only if it did before adds nothing to the count.
  pub count-update_where_mono :
      (p q : A → Bool) (f : A → A) (xs : List A)
      → ((x : A) → p (f x) ≡ true → p x ≡ true)
      → count p (update_where q f xs) ≤ count p xs
  count-update_where_mono p q f [] h = omega arith
  count-update_where_mono p q f (x ∷ xs) h = ground (arith, h x, count-update_where_mono p q f xs h)

  -- An update that does not touch the test leaves the count.
  pub count-update_where :
      (p q : A → Bool) (f : A → A) (xs : List A)
      → ((x : A) → p (f x) ≡ p x)
      → count p (update_where q f xs) ≡ count p xs
  count-update_where p q f [] h = refl
  count-update_where p q f (x ∷ xs) h = ground (arith, h x, count-update_where p q f xs h)

  pub count-le-of_imp :
      (p q : A → Bool) (xs : List A) → ((x : A) → p x ≡ true → q x ≡ true) → count p xs ≤ count q xs
  count-le-of_imp p q [] h = omega arith
  count-le-of_imp p q (x ∷ xs) h = ground (arith, h x, count-le-of_imp p q xs h)

  pub length-filter-le : (p : A → Bool) (xs : List A) → length (filter p xs) ≤ length xs
  length-filter-le p [] = omega arith
  length-filter-le p (x ∷ xs) = ground (arith, length-filter-le p xs)

  pub All-append {κ} : (P : A → Type κ) (xs ys : List A) → All P xs → All P ys → All P (xs ++ ys)
  All-append P [] ys hx hy = hy
  All-append P (x ∷ xs) ys hx hy = (hx.0, All-append P xs ys hx.1 hy)

  pub All-map {κ τ} :
      (P : A → Type κ) (Q : A → Type τ) (xs : List A) → ((x : A) → P x → Q x) → All P xs → All Q xs
  All-map P Q [] h a = tt
  All-map P Q (x ∷ xs) h a = (h x a.0, All-map P Q xs h a.1)

-- A row of the table that fits a test is counted.
pub In-count :
    {A : Type 0} (p : A → Bool) (a : A) (xs : List A) → In a xs → p a ≡ true → 0 < count p xs
In-count p a [] i h = absurd i
In-count p a (x ∷ xs) (inl e) h = elim (Bool-cases (p x)) [ inl y ↦ ground arith | inr n ↦ cc ]
In-count p a (x ∷ xs) (inr i) h = ground (arith, In-count p a xs i h)

pub All-In : {A : Type 0} (P : A → Type 0) (a : A) (xs : List A) → All P xs → In a xs → P a
All-In P a [] h i = absurd i
All-In P a (x ∷ xs) h (inl e) = rw e h.0
All-In P a (x ∷ xs) h (inr i) = All-In P a xs h.1 i

pub In-append_left : {A : Type 0} (a : A) (xs ys : List A) → In a xs → In a (xs ++ ys)
In-append_left a [] ys i = absurd i
In-append_left a (x ∷ xs) ys (inl e) = inl e
In-append_left a (x ∷ xs) ys (inr i) = inr (In-append_left a xs ys i)

pub In-append_right : {A : Type 0} (a : A) (xs ys : List A) → In a ys → In a (xs ++ ys)
In-append_right a [] ys i = i
In-append_right a (x ∷ xs) ys i = inr (In-append_right a xs ys i)

pub All-of_count_zero :
    {A : Type 0} (p : A → Bool) (a : A) (xs : List A)
    → count p xs ≡ 0
    → All (λ x. p x ≡ true → x ≡ a) xs
All-of_count_zero p a [] h = tt
All-of_count_zero p a (x ∷ xs) h =
    (λ y. absurd (ground arith), All-of_count_zero p a xs (ground arith))

-- If at most one row fits a test, it is the row that was found.
pub All-eq_of_unique :
    {A : Type 0} (p : A → Bool) (a : A) (xs : List A)
    → In a xs
    → p a ≡ true
    → count p xs ≤ 1
    → All (λ x. p x ≡ true → x ≡ a) xs
All-eq_of_unique p a [] i h u = absurd i
All-eq_of_unique p a (x ∷ xs) (inl e) h u = (λ _. sym e, All-of_count_zero p a xs (ground arith))
All-eq_of_unique p a (x ∷ xs) (inr i) h u =
    (λ y. absurd (ground (arith, In-count p a xs i h)), All-eq_of_unique p a xs i h (ground arith))
