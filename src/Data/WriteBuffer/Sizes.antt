-- ===== src/Data/WriteBuffer/Sizes.antt =====
-- How many entries a dict of lists holds, after one is appended or a list is taken away.
use safactory.Base.{
  string_eq, lookup, Dict, Eq, List, [], arith, erase, if◌then◌else◌, insert, length, length-append,
  lookup-erase, lookup-insert, refl, ◌++◌, ◌+◌, ◌==◌, ◌∷◌, ◌≡◌, ◌≤◌,
}
use safactory.Data.WriteBuffer.{sum_lengths, or_empty}

module _ {ℓ κ} {K : Type κ} {A : Type ℓ} ⦃e : Eq K⦄ where
  pub sum_lengths-append :
      (k : K) (x : A) (d : Dict K (List A))
      → sum_lengths (insert k (or_empty (lookup k d) ++ (x ∷ [])) d) ≡ sum_lengths d + 1
  unfolding sum_lengths insert lookup or_empty
  sum_lengths-append k x [] = refl
  sum_lengths-append k x ((j, ys) ∷ d) =
      ground (arith, sum_lengths-append k x d, length-append ys (x ∷ []))

  pub sum_lengths-erase :
      (k : K) (d : Dict K (List A))
      → length (or_empty (lookup k d)) + sum_lengths (erase k d) ≤ sum_lengths d
  unfolding sum_lengths erase lookup or_empty
  sum_lengths-erase k [] = omega arith
  sum_lengths-erase k ((j, ys) ∷ d) = ground (arith, sum_lengths-erase k d)

  pub or_empty-append :
      (k j : K) (x : A) (d : Dict K (List A))
      → or_empty (lookup j (insert k (or_empty (lookup k d) ++ (x ∷ [])) d))
        ≡ (if k == j then or_empty (lookup k d) ++ (x ∷ []) else or_empty (lookup j d))
  unfolding or_empty
  or_empty-append k j x d = ground (arith, lookup-insert k j (or_empty (lookup k d) ++ (x ∷ [])) d)

  pub or_empty-erase :
      (k j : K) (d : Dict K (List A))
      → or_empty (lookup j (erase k d)) ≡ (if k == j then [] else or_empty (lookup j d))
  unfolding or_empty
  or_empty-erase k j d = ground (arith, lookup-erase k j d)
