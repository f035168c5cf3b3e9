-- ===== src/Base/Removal.antt =====
-- `xs.remove(x)`, and how often an entry stands in a list.
use Prim.Native.Nat.{suc, ◌+◌, ◌<◌}
use mathlib.Core.Path.{◌≡◌}
use mathlib.Core.Bool.{Bool, true}
use mathlib.Core.List.{List, [], ◌∷◌}
use native.Mathlib.Omega.{arith}
use safactory.Base.Tests.{Eq, ◌==◌, if◌then◌else◌}
use safactory.Base.Lists.{count_if, length}
use safactory.Base.Dicts.{contains}

module _ {ℓ} {K : Type ℓ} ⦃e : Eq K⦄ where
  unfoldable pub take_out : K → List K → List K
  take_out k [] = []
  take_out k (j ∷ xs) = let rest = take_out k xs in if j == k then xs else j ∷ rest

  abbrev pub is_it : K → K → Bool
  is_it k j = j == k

  pub count-take_out :
      (k j : K) (xs : List K)
      → contains k xs ≡ true
      → count_if (is_it j) xs ≡ count_if (is_it j) (take_out k xs) + (if k == j then 1 else 0)
  unfolding take_out contains
  count-take_out k j [] h = absurd (cc h)
  count-take_out k j (i ∷ xs) h = ground (arith, e.beq_iff i k, count-take_out k j xs)

  pub length-take_out :
      (k : K) (xs : List K) → contains k xs ≡ true → length xs ≡ suc (length (take_out k xs))
  unfolding take_out contains
  length-take_out k [] h = absurd (cc h)
  length-take_out k (i ∷ xs) h = ground (arith, length-take_out k xs)

  pub contains-count : (k : K) (xs : List K) → contains k xs ≡ true → 0 < count_if (is_it k) xs
  unfolding contains
  contains-count k [] h = absurd (cc h)
  contains-count k (i ∷ xs) h = ground (arith, contains-count k xs)
