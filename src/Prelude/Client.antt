-- ===== src/Prelude/Client.antt =====
-- The database client, which is not code of the repository. Its tables are lists of rows. Which of
-- several fitting rows `findFirst` returns is not specified: it is a parameter with two laws.
use Prim.Native.Nat.{ℕ}
use mathlib.Core.Path.{◌≡◌}
use mathlib.Core.Bool.{Bool, true, not}
use mathlib.Core.Option.{Option, none, some}
use mathlib.Core.List.{List, [], ◌∷◌, ◌++◌}
use school_van_tracking_saa.Prelude.Lists.{In, any, count, update_where}
use school_van_tracking_saa.Prelude.Exceptions.{record_not_found}
use school_van_tracking_saa.Prelude.Actions.{Action, gets, modify, throw_if, ◌>>◌, ◌>>=◌}

pub record Prisma : Type 1 where
  pub find_first : {A : Type 0} → (A → Bool) → List A → Option A
  pub find_first_sound :
      {A : Type 0} (p : A → Bool) (rows : List A) {a : A}
      → find_first p rows ≡ some a
      → (p a ≡ true) × In a rows
  pub find_first_complete :
      {A : Type 0} (p : A → Bool) (rows : List A) → find_first p rows ≡ none → count p rows ≡ 0

-- Where a state keeps a table.
pub record Table (S A : Type 0) : Type 0 where
  pub rows : S → List A
  pub with_rows : List A → S → S

module _ {S A : Type 0} (table : Table S A) where
  -- `update({ where: p, data: f })`
  -- `updateMany({ where: p, data: f })`
  abbrev pub update_many : (A → Bool) → (A → A) → Action S (Unit {0})
  update_many p f = modify (λ s. table.with_rows (update_where p f (table.rows s)) s)

  -- `update({ where: p, data: f })`, which throws if no row fits.
  abbrev pub update : (A → Bool) → (A → A) → Action S (Unit {0})
  update p f = do
    found ← gets (λ s. any p (table.rows s))
    throw_if (not found) record_not_found
    modify (λ s. table.with_rows (update_where p f (table.rows s)) s)

  -- `create({ data: row })`
  abbrev pub create : A → Action S (Unit {0})
  create row = modify (λ s. table.with_rows (table.rows s ++ row ∷ []) s)

  -- `count({ where: p })`
  abbrev pub count_rows : (A → Bool) → Action S ℕ
  count_rows p = gets (λ s. count p (table.rows s))

  abbrev pub find : Prisma → (A → Bool) → Action S (Option A)
  find prisma p = gets (λ s. prisma.find_first p (table.rows s))
