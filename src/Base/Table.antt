-- ===== src/Base/Table.antt =====
-- Tables of rows with a numeric key: the lookups and updates of the services' queries, and the
-- sums over a table that the ledger's laws are about.
use Prim.Native.Nat.{ℕ, ◌+◌}
use mathlib.Core.Path.{◌≡◌, refl}
use mathlib.Core.Logic.{◌≢◌}
use mathlib.Core.Option.{Option, none, some}
use mathlib.Core.List.{List, [], ◌∷◌, ◌++◌}
use native.Mathlib.Omega.{arith}
use express_monorepo_bank_te.Base.Tests.{◌==◌, if◌then◌else◌}

-- A sum over the rows: SQL's `sum(value)`.
abbrev pub sum_of : {A : Type 0} → (A → ℕ) → List A → ℕ
sum_of value [] = 0
sum_of value (r ∷ rows) = value r + sum_of value rows

pub sum_of-append :
    {A : Type 0} (value : A → ℕ) (rows : List A) (r : A)
    → sum_of value (rows ++ r ∷ []) ≡ sum_of value rows + value r
sum_of-append value [] r = omega arith
sum_of-append value (x ∷ rows) r = omega (arith, sum_of-append value rows r)

module _ {A : Type 0} (key : A → ℕ) where
  -- `const [row] = select … where eq(key, k)`
  abbrev pub find_by : ℕ → List A → Option A
  find_by k [] = none
  find_by k (r ∷ rows) = if key r == k then some r else find_by k rows

  -- `update … set f where eq(key, k)`
  abbrev pub update_by : ℕ → (A → A) → List A → List A
  update_by k f [] = []
  update_by k f (r ∷ rows) = (if key r == k then f r else r) ∷ update_by k f rows

  -- No two rows have the same key.
  abbrev pub DistinctKeys : List A → Type 0
  DistinctKeys [] = Unit {0}
  DistinctKeys (r ∷ rows) = (find_by (key r) rows ≡ none) × DistinctKeys rows

  pub find_by-key : (k : ℕ) (rows : List A) (r : A) → find_by k rows ≡ some r → key r ≡ k
  find_by-key k [] r h = cc
  find_by-key k (x ∷ rows) r h = ground (arith, find_by-key k rows r)

  pub find_by-append_new :
      (k : ℕ) (r : A) (rows : List A)
      → find_by (key r) rows ≡ none
      → find_by k (rows ++ r ∷ []) ≡ (if key r == k then some r else find_by k rows)
  find_by-append_new k r [] h = refl
  find_by-append_new k r (x ∷ rows) h = ground (arith, find_by-append_new k r rows)

  pub find_by-append_self :
      (r : A) (rows : List A)
      → find_by (key r) rows ≡ none
      → find_by (key r) (rows ++ r ∷ []) ≡ some r
  find_by-append_self r rows h = ground (arith, find_by-append_new (key r) r rows)

  pub DistinctKeys-append :
      (r : A) (rows : List A)
      → DistinctKeys rows
      → find_by (key r) rows ≡ none
      → DistinctKeys (rows ++ r ∷ [])
  DistinctKeys-append r [] d h = (refl, tt)
  DistinctKeys-append r (x ∷ rows) d h =
      ground (arith, DistinctKeys-append r rows d.1, find_by-append_new (key x) r rows)

  module _ (f : A → A) (keeps : (r : A) → key (f r) ≡ key r) where
    pub find_by-update_self :
        (k : ℕ) (rows : List A) (r : A)
        → find_by k rows ≡ some r
        → find_by k (update_by k f rows) ≡ some (f r)
    find_by-update_self k [] r h = cc
    find_by-update_self k (x ∷ rows) r h = ground (arith, keeps x, find_by-update_self k rows r)

    pub find_by-update_ne :
        (j k : ℕ) (rows : List A) → j ≢ k → find_by k (update_by j f rows) ≡ find_by k rows
    find_by-update_ne j k [] h = refl
    find_by-update_ne j k (x ∷ rows) h = ground (arith, keeps x, find_by-update_ne j k rows h)

    pub find_by-update_none :
        (j k : ℕ) (rows : List A) → find_by k rows ≡ none → find_by k (update_by j f rows) ≡ none
    find_by-update_none j k [] h = refl
    find_by-update_none j k (x ∷ rows) h = ground (arith, keeps x, find_by-update_none j k rows)

    pub DistinctKeys-update :
        (k : ℕ) (rows : List A) → DistinctKeys rows → DistinctKeys (update_by k f rows)
    DistinctKeys-update k [] d = tt
    DistinctKeys-update k (x ∷ rows) d =
        ground
          (arith, keeps x, DistinctKeys-update k rows d.1, find_by-update_none k (key x) rows d.0)

  -- An update of a row that is not there changes nothing.
  pub update_by-none :
      (k : ℕ) (f : A → A) (rows : List A) → find_by k rows ≡ none → update_by k f rows ≡ rows
  update_by-none k f [] h = refl
  update_by-none k f (x ∷ rows) h = ground (arith, update_by-none k f rows)

  -- One row is replaced in the sum.
  pub sum_of-update :
      (value : A → ℕ) (f : A → A) (k : ℕ) (rows : List A) (r : A)
      → DistinctKeys rows
      → find_by k rows ≡ some r
      → sum_of value (update_by k f rows) + value r ≡ sum_of value rows + value (f r)
  sum_of-update value f k [] r d h = cc
  sum_of-update value f k (x ∷ rows) r d h =
      ground (arith, sum_of-update value f k rows r d.1, update_by-none k f rows)
