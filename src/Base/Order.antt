-- ===== src/Base/Order.antt =====
-- ORDER BY … DESC on a numeric column, and cutting the result at a cursor.
use mathlib.Core.List.{Perm}
use mathlib.Core.List.Perm
use Prim.Native.Nat.{ℕ, zero, suc, ◌≤◌, ◌<◌}
use mathlib.Core.Path.{◌≡◌, refl}
use mathlib.Core.Logic.{◌≢◌, inl, inr}
use mathlib.Core.Bool.{Bool}
use mathlib.Core.Option.{none, some, Option}
use mathlib.Core.List.{List, [], ◌∷◌, ◌++◌}
use native.Mathlib.Omega.{arith}
use express_monorepo_bank_te.Base.Tests.{ltb, leb, if◌then◌else◌, Bool-cases}
use express_monorepo_bank_te.Base.Lists.{select, take, drop, All}
use express_monorepo_bank_te.Base.Table.{find_by, DistinctKeys}

module _ {A : Type 0} (key : A → ℕ) where
  -- The sort, as insertion into a sorted list.
  unfoldable pub insert_desc : A → List A → List A
  insert_desc t [] = t ∷ []
  insert_desc t (u ∷ rows) =
      let rest = insert_desc t rows in if leb (key u) (key t) then t ∷ u ∷ rows else u ∷ rest

  unfoldable pub order_desc : List A → List A
  order_desc [] = []
  order_desc (t ∷ rows) = insert_desc t (order_desc rows)

  -- The column's value in the last row.
  abbrev pub last_key : List A → Option ℕ
  last_key [] = none
  last_key (t ∷ []) = some (key t)
  last_key (t ∷ u ∷ rows) = last_key (u ∷ rows)

  -- Each row's `seq` is above those of the rows after it.
  abbrev pub IsDescending : List A → Type 0
  IsDescending [] = Unit {0}
  IsDescending (t ∷ rows) = All (λ u. key u < key t) rows × IsDescending rows

  All-insert_desc :
      (P : A → Type 0) (t : A) (rows : List A) → P t → All P rows → All P (insert_desc t rows)
  unfolding insert_desc
  All-insert_desc P t [] p h = (p, tt)
  All-insert_desc P t (u ∷ rows) p h = ground (arith, All-insert_desc P t rows p h.1)

  below_weaken :
      (k j : ℕ) (rows : List A) → k ≤ j → All (λ u. key u < k) rows → All (λ u. key u < j) rows
  below_weaken k j [] le h = tt
  below_weaken k j (u ∷ rows) le h = (omega arith, below_weaken k j rows le h.1)

  insert_desc-IsDescending :
      (t : A) (rows : List A)
      → find_by key (key t) rows ≡ none
      → IsDescending rows
      → IsDescending (insert_desc t rows)
  unfolding insert_desc
  insert_desc-IsDescending t [] new d = (tt, tt)
  insert_desc-IsDescending t (u ∷ rows) new d = ground (
    arith,
    insert_desc-IsDescending t rows,
    below_weaken (key u) (key t) rows,
    All-insert_desc (λ v. key v < key u) t rows,
  )

  find_by-insert_desc :
      (k : ℕ) (t : A) (rows : List A)
      → key t ≢ k
      → find_by key k rows ≡ none
      → find_by key k (insert_desc t rows) ≡ none
  unfolding insert_desc
  find_by-insert_desc k t [] ne h = ground arith
  find_by-insert_desc k t (u ∷ rows) ne h = ground (arith, find_by-insert_desc k t rows ne)

  find_by-order :
      (k : ℕ) (rows : List A) → find_by key k rows ≡ none → find_by key k (order_desc rows) ≡ none
  unfolding order_desc
  find_by-order k [] h = refl
  find_by-order k (t ∷ rows) h =
      ground (arith, find_by-order k rows, find_by-insert_desc k t (order_desc rows))

  pub order-IsDescending : (rows : List A) → DistinctKeys key rows → IsDescending (order_desc rows)
  unfolding order_desc
  order-IsDescending [] d = tt
  order-IsDescending (t ∷ rows) d =
      insert_desc-IsDescending t (order_desc rows) (find_by-order (key t) rows d.0)
        (order-IsDescending rows d.1)

  -- A selection keeps the keys unique.
  find_by-select :
      (p : A → Bool) (k : ℕ) (rows : List A)
      → find_by key k rows ≡ none
      → find_by key k (select p rows) ≡ none
  find_by-select p k [] h = refl
  find_by-select p k (t ∷ rows) h = ground (arith, find_by-select p k rows)

  pub DistinctKeys-select :
      (p : A → Bool) (rows : List A) → DistinctKeys key rows → DistinctKeys key (select p rows)
  DistinctKeys-select p [] d = tt
  DistinctKeys-select p (t ∷ rows) d =
      ground (arith, DistinctKeys-select p rows d.1, find_by-select p (key t) rows)

  -- The rows under a cursor.
  abbrev pub under : ℕ → List A → List A
  under c = select (λ t. ltb (key t) c)

  All-under : (P : A → Type 0) (c : ℕ) (rows : List A) → All P rows → All P (under c rows)
  All-under P c [] h = tt
  All-under P c (t ∷ rows) h = ground (arith, All-under P c rows h.1)

  insert_desc_top :
      (t : A) (rows : List A) → All (λ u. key u < suc (key t)) rows → insert_desc t rows ≡ t ∷ rows
  unfolding insert_desc
  insert_desc_top t [] h = refl
  insert_desc_top t (u ∷ rows) h = ground arith

  under-insert_desc :
      (c : ℕ) (t : A) (rows : List A)
      → IsDescending rows
      → under c (insert_desc t rows)
        ≡ (if ltb (key t) c then insert_desc t (under c rows) else under c rows)
  unfolding insert_desc
  under-insert_desc c t [] d = refl
  under-insert_desc c t (u ∷ rows) d = ground (
    arith,
    under-insert_desc c t rows d.1,
    below_weaken (key u) (suc (key t)) rows,
    All-under (λ v. key v < suc (key t)) c rows,
    insert_desc_top t (under c rows),
  )

  -- Sorting and then cutting is cutting and then sorting.
  pub under-order :
      (c : ℕ) (rows : List A)
      → DistinctKeys key rows
      → under c (order_desc rows) ≡ order_desc (under c rows)
  unfolding order_desc
  under-order c [] d = refl
  under-order c (t ∷ rows) d = ground (
    arith,
    under-order c rows d.1,
    under-insert_desc c t (order_desc rows) (order-IsDescending rows d.1),
  )

  under_keeps : (c : ℕ) (rows : List A) → All (λ u. key u < c) rows → under c rows ≡ rows
  under_keeps c [] h = refl
  under_keeps c (t ∷ rows) h = ground (arith, under_keeps c rows h.1)

  pub last_key-lt :
      (n k c : ℕ) (rows : List A)
      → All (λ u. key u < k) rows
      → last_key (take n rows) ≡ some c
      → c < k
  last_key-lt zero k c rows h e = absurd (cc e)
  last_key-lt (suc n) k c [] h e = absurd (cc e)
  last_key-lt (suc zero) k c (t ∷ rows) h e = ground arith
  last_key-lt (suc (suc n)) k c (t ∷ []) h e = ground arith
  last_key-lt (suc (suc n)) k c (t ∷ u ∷ rows) h e = last_key-lt (suc n) k c (u ∷ rows) h.1 e

  pub All-under_self : (c : ℕ) (rows : List A) → All (λ u. key u < c) (under c rows)
  All-under_self c [] = tt
  All-under_self c (t ∷ rows) = ground (arith, All-under_self c rows)

  pub under-under : (c k : ℕ) (rows : List A) → c < k → under c (under k rows) ≡ under c rows
  under-under c k [] h = refl
  under-under c k (t ∷ rows) h = ground (arith, under-under c k rows h)

  pub under-IsDescending : (c : ℕ) (rows : List A) → IsDescending rows → IsDescending (under c rows)
  under-IsDescending c [] d = tt
  under-IsDescending c (t ∷ rows) d =
      ground (arith, under-IsDescending c rows d.1, All-under (λ u. key u < key t) c rows d.0)

  -- The rows under the last one of a page are the rows behind the page.
  pub under-last_key :
      (n c : ℕ) (rows : List A)
      → IsDescending rows
      → last_key (take n rows) ≡ some c
      → under c rows ≡ drop n rows
  under-last_key zero c rows d e = absurd (cc e)
  under-last_key (suc n) c [] d e = absurd (cc e)
  under-last_key (suc zero) c (t ∷ rows) d e = ground (arith, under_keeps (key t) rows d.0)
  under-last_key (suc (suc n)) c (t ∷ []) d e = ground arith
  under-last_key (suc (suc n)) c (t ∷ u ∷ rows) d e = ground (
    arith,
    last_key-lt (suc n) (key t) c (u ∷ rows) d.0 e,
    under-last_key (suc n) c (u ∷ rows) d.1 e,
  )

  insert_desc-perm : (t : A) (rows : List A) → Perm (insert_desc t rows) (t ∷ rows)
  unfolding insert_desc
  insert_desc-perm t [] = Perm.refl (t ∷ [])
  insert_desc-perm t (u ∷ rows) = elim (Bool-cases (leb (key u) (key t))) [
    | inl top ↦ rw top (Perm.refl (t ∷ u ∷ rows))
    | inr deeper ↦
        rw deeper (Perm.trans (Perm.cons u (insert_desc-perm t rows)) (Perm.swap t u rows))
  ]

  -- Sorting neither loses nor repeats a row.
  pub order-perm : (rows : List A) → Perm (order_desc rows) rows
  unfolding order_desc
  order-perm [] = Perm.refl []
  order-perm (t ∷ rows) =
      Perm.trans (insert_desc-perm t (order_desc rows)) (Perm.cons t (order-perm rows))

  -- A row whose column is above all the others comes first.
  pub order-append_top :
      (r : A) (rows : List A)
      → All (λ u. key u < key r) rows
      → order_desc (rows ++ r ∷ []) ≡ r ∷ order_desc rows
  unfolding order_desc insert_desc
  order-append_top r [] h = refl
  order-append_top r (t ∷ rows) h = ground (arith, order-append_top r rows h.1)

  -- ORDER BY … ASC, likewise.
  unfoldable pub insert_asc : A → List A → List A
  insert_asc t [] = t ∷ []
  insert_asc t (u ∷ rows) =
      let rest = insert_asc t rows in if leb (key t) (key u) then t ∷ u ∷ rows else u ∷ rest

  unfoldable pub order_asc : List A → List A
  order_asc [] = []
  order_asc (t ∷ rows) = insert_asc t (order_asc rows)

  insert_asc-append_top :
      (t r : A) (rows : List A)
      → key t < key r
      → insert_asc t (rows ++ r ∷ []) ≡ insert_asc t rows ++ r ∷ []
  unfolding insert_asc
  insert_asc-append_top t r [] h = ground arith
  insert_asc-append_top t r (u ∷ rows) h = ground (arith, insert_asc-append_top t r rows h)

  -- A row whose column is above all the others comes last.
  pub order_asc-append_top :
      (r : A) (rows : List A)
      → All (λ u. key u < key r) rows
      → order_asc (rows ++ r ∷ []) ≡ order_asc rows ++ r ∷ []
  unfolding order_asc insert_asc
  order_asc-append_top r [] h = refl
  order_asc-append_top r (t ∷ rows) h =
      ground (arith, order_asc-append_top r rows h.1, insert_asc-append_top t r (order_asc rows))
