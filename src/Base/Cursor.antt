-- ===== src/Base/Cursor.antt =====
-- Rows in the order of their ids, read in pages after a cursor.
use Prim.Native.Nat.{ℕ, zero, suc, ◌≤◌, ◌<◌}
use mathlib.Core.Path.{◌≡◌, refl}
use mathlib.Core.Bool.{Bool, true}
use mathlib.Core.List.{List, [], ◌∷◌}
use native.Mathlib.Omega.{arith}
use safactory.Base.Tests.{ltb, if_elim}
use safactory.Base.Lists.{drop, keep_if, take}

module _ {ℓ} {A : Type ℓ} (id : A → ℕ) where
  -- The ids grow along the rows, and are above a bound.
  abbrev pub IsAbove : ℕ → List A → Type 0
  IsAbove n [] = Unit
  IsAbove n (row ∷ rows) = (n < id row) × IsAbove (id row) rows

  -- The cursor after rows that are all taken.
  abbrev pub last_id : ℕ → List A → ℕ
  last_id last [] = last
  last_id last (row ∷ rows) = last_id (id row) rows

  IsAbove-weaken : (m n : ℕ) (rows : List A) → m ≤ n → IsAbove n rows → IsAbove m rows
  IsAbove-weaken m n [] h a = tt
  IsAbove-weaken m n (row ∷ rows) h a = (omega (arith, a.0), a.1)

  pub IsAbove-keep :
      (test : A → Bool) (n : ℕ) (rows : List A) → IsAbove n rows → IsAbove n (keep_if test rows)
  IsAbove-keep test n [] a = tt
  IsAbove-keep test n (row ∷ rows) a =
      let tail = IsAbove-keep test (id row) rows a.1 in
      if_elim (IsAbove n) (test row) _ _ (a.0, tail)
        (IsAbove-weaken n (id row) (keep_if test rows) (omega (arith, a.0)) tail)

  -- Rows that are kept only above a cursor are above it.
  pub keep-IsAbove :
      (test : A → Bool) (after n : ℕ) (rows : List A)
      → ((row : A) → test row ≡ true → after < id row)
      → IsAbove n rows
      → IsAbove after (keep_if test rows)
  keep-IsAbove test after n [] above a = tt
  keep-IsAbove test after n (row ∷ rows) above a =
      let tail = IsAbove-keep test (id row) rows a.1 in
      let rest = keep-IsAbove test after (id row) rows above a.1 in ground (arith, above row)

  pub IsAbove-take : (k n : ℕ) (rows : List A) → IsAbove n rows → IsAbove n (take k rows)
  IsAbove-take zero n rows a = tt
  IsAbove-take (suc k) n [] a = tt
  IsAbove-take (suc k) n (row ∷ rows) a = (a.0, IsAbove-take k (id row) rows a.1)

  pub last_id-ge : (n k : ℕ) (rows : List A) → IsAbove n rows → n ≤ last_id n (take k rows)
  last_id-ge n zero rows a = omega arith
  last_id-ge n (suc k) [] a = omega arith
  last_id-ge n (suc k) (row ∷ rows) a = omega (arith, a.0, last_id-ge (id row) k rows a.1)

  keep_all :
      (m n : ℕ) (rows : List A)
      → m ≤ n
      → IsAbove n rows
      → keep_if (λ row. ltb m (id row)) rows ≡ rows
  keep_all m n [] h a = refl
  keep_all m n (row ∷ rows) h a = ground (arith, a.0, keep_all m (id row) rows, a.1)

  -- After a page is taken, the rows above the new cursor are those that follow the page.
  pub after_take :
      (n k : ℕ) (rows : List A)
      → IsAbove n rows
      → keep_if (λ row. ltb (last_id n (take k rows)) (id row)) rows ≡ drop k rows
  after_take n zero rows a = keep_all n n rows (omega arith) a
  after_take n (suc k) [] a = refl
  after_take n (suc k) (row ∷ rows) a =
      ground (arith, last_id-ge (id row) k rows a.1, after_take (id row) k rows a.1)
