-- ===== src/Prelude/Binds.antt =====
-- Chains of actions: what a bind gives once its first part has succeeded or thrown, and actions
-- that only read.
use mathlib.Core.Path.{◌≡◌, refl, ap, ◌∙◌}
use native.Mathlib.Omega.{arith}
use school_van_tracking_saa.Prelude.Exceptions.{Exception}
use school_van_tracking_saa.Prelude.Actions.{Result, ok, err, Action, ◌>>=◌, Result-cases}
use mathlib.Core.Logic.{inl, inr}

abbrev pub ReadOnly : {S A : Type 0} → Action S A → Type 0
ReadOnly {S} m = (s : S) → (m s).1 ≡ s

module _ {S A B : Type 0} (m : Action S A) (f : A → Action S B) (s : S) where
  pub bind-ok : (a : A) → (m s).0 ≡ ok a → (m >>= f) s ≡ f a (m s).1
  bind-ok a h = rw (h, ◌>>=◌) refl

  pub bind-err : (e : Exception) → (m s).0 ≡ err e → (m >>= f) s ≡ (err e, (m s).1)
  bind-err e h = rw (h, ◌>>=◌) refl

  -- A chain that succeeds has succeeded in its first part.
  pub bind-eq-ok :
      {b : B} → ((m >>= f) s).0 ≡ ok b → (a : A) × ((m s).0 ≡ ok a) × ((f a (m s).1).0 ≡ ok b)
  bind-eq-ok h = elim (Result-cases (m s).0) [
    | inl (a, e) ↦ (a, e, rw (← bind-ok a e) h)
    | inr (e, r) ↦ absurd (ground (arith, ap (λ (p : Result B × S). p.0) (bind-err e r)))
  ]

module _ {S A B : Type 0} (m : Action S A) (f : A → Action S B) where
  pub bind-ReadOnly : ReadOnly m → ((a : A) → ReadOnly (f a)) → ReadOnly (m >>= f)
  bind-ReadOnly rm rf s = elim (Result-cases (m s).0) [
    | inl (a, e) ↦ rw (bind-ok m f s a e) (rf a (m s).1 ∙ rm s)
    | inr (e, r) ↦ rw (bind-err m f s e r) (rm s)
  ]

-- An action that leaves what `view` shows of the state.
abbrev pub Keeps : {S A B : Type 0} → (S → B) → Action S A → Type 0
Keeps {S} view m = (s : S) → view (m s).1 ≡ view s

module _ {S A B V : Type 0} (view : S → V) (m : Action S A) (f : A → Action S B) where
  pub bind-Keeps : Keeps view m → ((a : A) → Keeps view (f a)) → Keeps view (m >>= f)
  bind-Keeps km kf s = elim (Result-cases (m s).0) [
    | inl (a, e) ↦ rw (bind-ok m f s a e) (kf a (m s).1 ∙ km s)
    | inr (e, r) ↦ rw (bind-err m f s e r) (km s)
  ]
