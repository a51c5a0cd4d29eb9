-- ===== src/Trips/Evolution.antt =====
-- How the table of trips may change: rows in place, identifiers, and statuses along the diagram of
-- `Lifecycle`.
use school_van_tracking_saa.Prelude.{
  ℕ, ◌≤◌, ◌≡◌, refl, ◌⊎◌, inl, inr, true, Bool, List, [], ◌∷◌, ◌++◌, In, All, count, update_where,
  arith, ◌==◌, All-eq_of_unique, count-update_where, count-append, ap, sym, ◌∙◌, subst, Bool-cases,
  All-map,
}
use school_van_tracking_saa.Schema.{Trip, scheduled}
use school_van_tracking_saa.Trips.Lifecycle.{
  ◌⟶*◌, here, next, ⟶*_trans, can_transition, can_transition-⟶,
}

-- The old rows stay in place with their identifiers, and new rows follow.
abbrev pub Evolves : List Trip → List Trip → Type 0
Evolves [] us = All (λ (u : Trip). scheduled ⟶* u.status) us
Evolves (t ∷ ts) [] = ⊥
Evolves (t ∷ ts) (u ∷ us) = (u.id ≡ t.id) × (t.status ⟶* u.status) × Evolves ts us

pub Evolves-refl : (ts : List Trip) → Evolves ts ts
Evolves-refl [] = tt
Evolves-refl (t ∷ ts) = (refl, here, Evolves-refl ts)

started_fresh :
    (ts us : List Trip)
    → All (λ (t : Trip). scheduled ⟶* t.status) ts
    → Evolves ts us
    → All (λ (u : Trip). scheduled ⟶* u.status) us
started_fresh [] us a e = e
started_fresh (t ∷ ts) [] a e = absurd e
started_fresh (t ∷ ts) (u ∷ us) a e = (⟶*_trans a.0 e.1, started_fresh ts us a.1 e.2)

pub Evolves-trans : (ts us vs : List Trip) → Evolves ts us → Evolves us vs → Evolves ts vs
Evolves-trans [] us vs e f = started_fresh us vs e f
Evolves-trans (t ∷ ts) [] vs e f = absurd e
Evolves-trans (t ∷ ts) (u ∷ us) [] e f = absurd f
Evolves-trans (t ∷ ts) (u ∷ us) (v ∷ vs) e f =
    (f.0 ∙ e.0, ⟶*_trans e.1 f.1, Evolves-trans ts us vs e.2 f.2)

pub Evolves-append : (ts : List Trip) (t : Trip) → t.status ≡ scheduled → Evolves ts (ts ++ t ∷ [])
Evolves-append [] t e = (rw e here, tt)
Evolves-append (x ∷ ts) t e = (refl, here, Evolves-append ts t e)

-- What an update may do to the rows that it changes.
abbrev pub Moves : (Trip → Bool) → (Trip → Trip) → Trip → Type 0
Moves q f x = q x ≡ true → ((f x).id ≡ x.id) × (x.status ⟶* (f x).status)

pub Evolves-update_where :
    (q : Trip → Bool) (f : Trip → Trip) (ts : List Trip)
    → All (Moves q f) ts
    → Evolves ts (update_where q f ts)
Evolves-update_where q f [] h = tt
Evolves-update_where q f (t ∷ ts) h = elim (Bool-cases (q t)) [
  | inl y ↦ rw y ((h.0 y).0, (h.0 y).1, Evolves-update_where q f ts h.1)
  | inr n ↦ rw n (refl, here, Evolves-update_where q f ts h.1)
]

-- Every trip of before is found again, at a status that the diagram leads to.
pub Evolves-In :
    (t : Trip) (ts us : List Trip)
    → Evolves ts us
    → In t ts
    → (u : Trip) × In u us × (u.id ≡ t.id) × (t.status ⟶* u.status)
Evolves-In t [] us e i = absurd i
Evolves-In t (x ∷ ts) [] e i = absurd e
Evolves-In t (x ∷ ts) (u ∷ us) e (inl p) = (
  u,
  inl refl,
  e.0 ∙ ap (λ (y : Trip). y.id) (sym p),
  subst (λ (y : Trip). y.status ⟶* u.status) (sym p) e.1,
)
Evolves-In t (x ∷ ts) (u ∷ us) e (inr i) =
    let (v, v_in, same, path) = Evolves-In t ts us e.2 i in (v, inr v_in, same, path)

-- No two trips have one identifier.
abbrev pub UniqueIds : List Trip → Type 0
UniqueIds ts = (id : ℕ) → count (λ (t : Trip). t.id == id) ts ≤ 1

-- An update of the one row with an identifier, whose status is kept or moved by a transition.
pub Evolves-update :
    (id : ℕ) (f : Trip → Trip) (t : Trip) (ts : List Trip)
    → UniqueIds ts
    → In t ts
    → t.id ≡ id
    → (f t).id ≡ t.id
    → ((f t).status ≡ t.status) ⊎ (can_transition t.status (f t).status ≡ true)
    → Evolves ts (update_where (λ x. x.id == id) f ts)
Evolves-update id f t ts unique i e same moved =
    Evolves-update_where (λ x. x.id == id) f ts
      (All-map (λ (x : Trip). (x.id == id) ≡ true → x ≡ t) (Moves (λ x. x.id == id) f) ts
        (λ x g fits. let p : x ≡ t = g fits in rw p (same, step moved))
        (All-eq_of_unique (λ (x : Trip). x.id == id) t ts i (ground arith) (unique id)))
  where
    step :
        ((f t).status ≡ t.status) ⊎ (can_transition t.status (f t).status ≡ true)
        → t.status ⟶* (f t).status
    step (inl p) = rw p here
    step (inr p) = next (can_transition-⟶ t.status (f t).status p) here

pub UniqueIds-update_where :
    (q : Trip → Bool) (f : Trip → Trip) (ts : List Trip)
    → ((x : Trip) → (f x).id ≡ x.id)
    → UniqueIds ts
    → UniqueIds (update_where q f ts)
UniqueIds-update_where q f ts same u =
    λ id. rw (count-update_where (λ (t : Trip). t.id == id) q f ts (λ x. rw (same x))) (u id)

pub UniqueIds-append :
    (ts : List Trip) (t : Trip)
    → UniqueIds ts
    → count (λ (x : Trip). x.id == t.id) ts ≡ 0
    → UniqueIds (ts ++ t ∷ [])
UniqueIds-append ts t u fresh = λ id. elim (Bool-cases (t.id == id)) [
  | inl y ↦
      let e : t.id ≡ id = ground arith in
      let none_yet : count (λ (x : Trip). x.id == id) ts ≡ 0 =
        subst (λ k. count (λ (x : Trip). x.id == k) ts ≡ 0) e fresh in
      rw (count-append (λ (x : Trip). x.id == id) ts (t ∷ [])) (ground arith)
  | inr n ↦ rw (count-append (λ (x : Trip). x.id == id) ts (t ∷ [])) (ground (arith, u id))
]
