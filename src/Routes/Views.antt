-- ===== src/Routes/Views.antt =====
-- The cached details of routes: what Routes/Service keeps in Redis and drops.
use school_van_tracking_saa.Prelude.{
  ℕ, suc, ◌≡◌, ◌≢◌, ◌⊎◌, refl, ◌∙◌, ap, inl, inr, Bool, true, false, List, [], ◌∷◌, ◌++◌, All,
  All-map, any, bind-ok, bind-err, Result, arith, ◌==◌, not, ◌&&◌, filter, update_where, Bool-cases,
  Result-cases,
}
use school_van_tracking_saa.Schema.{RouteStop, Database}
use school_van_tracking_saa.Routes.Rows.{
  is_on, is_stop, holds, sort_stops, transaction, stops_of, move_stop, move_stops,
}

filter-append_other :
    {A : Type 0} (p : A → Bool) (a : A) (xs : List A)
    → p a ≡ false
    → filter p (xs ++ a ∷ []) ≡ filter p xs
filter-append_other p a [] h = ground arith
filter-append_other p a (x ∷ xs) h = let rest = filter-append_other p a xs h in ground arith

-- An update of rows that a filter leaves out, before and after, does not show.
filter-update_other :
    {A : Type 0} (p q : A → Bool) (f : A → A) (xs : List A)
    → All (λ x. q x ≡ true → (p x ≡ false) × (p (f x) ≡ false)) xs
    → filter p (update_where q f xs) ≡ filter p xs
filter-update_other p q f [] h = refl
filter-update_other p q f (x ∷ xs) h =
    let rest = filter-update_other p q f xs h.1 in let first = h.0 in ground arith

All-always : {A : Type 0} (P : A → Type 0) (xs : List A) → ((x : A) → P x) → All P xs
All-always P [] h = tt
All-always P (x ∷ xs) h = (h x, All-always P xs h)

-- What the routes other than the given one show of the stops.
abbrev pub SameElsewhere : ℕ → List RouteStop → List RouteStop → Type 0
SameElsewhere route before after =
    (other : ℕ) → other ≢ route → stops_of other after ≡ stops_of other before

-- A stop that is added to its own route.
pub append-elsewhere :
    (row : RouteStop) (stops : List RouteStop)
    → SameElsewhere row.route_id stops (stops ++ row ∷ [])
unfolding stops_of
append-elsewhere row stops other ne =
    ap sort_stops (filter-append_other (is_on other) row stops (ground arith))

move_stop-stops :
    (school route position stop : ℕ) (d : Database)
    → let after = (move_stop school route position stop d).1.stops in
      (after ≡ d.stops)
      ⊎ (after
          ≡ update_where
              (is_stop school route stop)
              (λ s. record s { stop_order = position })
              d.stops)
move_stop-stops school route position stop d =
    elim (Bool-cases (any (is_stop school route stop) d.stops)) [
      | inr n ↦ inl (ground arith)
      | inl y ↦
          elim (Bool-cases
            (any (λ (s : RouteStop). holds route position s && not (s.id == stop)) d.stops)) [
              | inl taken ↦ inl (ground arith)
              | inr free ↦ inr (ground arith)
            ]
    ]

-- An update of stops of one route.
pub update-elsewhere :
    (route : ℕ) (q : RouteStop → Bool) (f : RouteStop → RouteStop) (stops : List RouteStop)
    → ((s : RouteStop) → (f s).route_id ≡ s.route_id)
    → All (λ s. q s ≡ true → s.route_id ≡ route) stops
    → SameElsewhere route stops (update_where q f stops)
unfolding stops_of
update-elsewhere route q f stops keeps on other ne =
    let out : (s : RouteStop) → s.route_id ≡ route → is_on other s ≡ false = λ s e. ground arith in
    ap sort_stops (
      filter-update_other (is_on other) q f stops (
        All-map (λ s. q s ≡ true → s.route_id ≡ route)
          (λ s. q s ≡ true → (is_on other s ≡ false) × (is_on other (f s) ≡ false)) stops
          (λ s g y. (out s (g y), out (f s) (keeps s ∙ g y))) on))

move_stop-elsewhere :
    (school route position stop : ℕ) (d : Database)
    → SameElsewhere route d.stops (move_stop school route position stop d).1.stops
move_stop-elsewhere school route position stop d other ne =
    elim (move_stop-stops school route position stop d) [
      | inl same ↦ ap (stops_of other) same
      | inr moved ↦
          let q = is_stop school route stop in
          ap (stops_of other) moved
          ∙ update-elsewhere route q (λ s. record s { stop_order = position }) d.stops (λ s. refl)
              (All-always (λ s. q s ≡ true → s.route_id ≡ route) d.stops (λ s y. ground arith))
              other ne
    ]

move_stops-elsewhere :
    (school route from : ℕ) (stops : List ℕ) (d : Database)
    → SameElsewhere route d.stops (move_stops school route from stops d).1.stops
move_stops-elsewhere school route from [] d other ne = refl
move_stops-elsewhere school route from (stop ∷ rest) d other ne =
    let move = move_stop school route from stop in
    let others = λ (_ : Unit {0}). move_stops school route (suc from) rest in
    elim (Result-cases (move d).0) [
      | inl (u, fine) ↦
          ap (λ (p : Result (Unit {0}) × Database). stops_of other p.1.stops)
            (bind-ok move others d u fine)
          ∙ move_stops-elsewhere school route (suc from) rest (move d).1 other ne
          ∙ move_stop-elsewhere school route from stop d other ne
      | inr (e, bad) ↦
          ap (λ (p : Result (Unit {0}) × Database). stops_of other p.1.stops)
            (bind-err move others d e bad)
          ∙ move_stop-elsewhere school route from stop d other ne
    ]

pub transaction-elsewhere :
    (school route from : ℕ) (stops : List ℕ) (d : Database)
    → SameElsewhere route d.stops (transaction (move_stops school route from stops) d).1.stops
transaction-elsewhere school route from stops d other ne =
    elim (Result-cases (move_stops school route from stops d).0) [
      | inl (u, fine) ↦ rw fine (move_stops-elsewhere school route from stops d other ne)
      | inr (e, bad) ↦ rw bad refl
    ]
