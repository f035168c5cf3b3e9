-- ===== src/Base/Dicts.antt =====
-- Python's dict and set, as lists in insertion order.
use Prim.Native.Nat.{◌+◌}
use mathlib.Core.Path.{subst₂, ◌≡◌, refl}
use mathlib.Core.Logic.{inl, inr}
use mathlib.Core.Bool.{Bool, false, ◌||◌}
use mathlib.Core.Option.{Option, none, some}
use mathlib.Core.List.{List, [], ◌∷◌}
use native.Mathlib.Omega.{arith}
use safactory.Base.Tests.{Eq, ◌==◌, if◌then◌else◌, is_some, Bool-cases, some_injective}
use safactory.Base.Lists.{count_if, keep_if, length}

abbrev pub Dict {ℓ κ} : Type ℓ → Type κ → Type (ℓ ⊔ κ)
Dict K V = List (K × V)

module _ {ℓ κ} {K : Type ℓ} {V : Type κ} ⦃e : Eq K⦄ where
  -- d.get(k)
  unfoldable pub lookup : K → Dict K V → Option V
  lookup k [] = none
  lookup k ((j, v) ∷ d) = if j == k then some v else lookup k d

  -- d[k] = v: an old key keeps its place, a new one goes to the end.
  unfoldable pub insert : K → V → Dict K V → Dict K V
  insert k v [] = (k, v) ∷ []
  insert k v ((j, w) ∷ d) = if j == k then (k, v) ∷ d else (j, w) ∷ insert k v d

  -- d.pop(k, None), del d[k]
  unfoldable pub erase : K → Dict K V → Dict K V
  erase k [] = []
  erase k ((j, w) ∷ d) = let rest = erase k d in if j == k then rest else (j, w) ∷ rest

  pub lookup-insert :
      (k j : K) (v : V) (d : Dict K V)
      → lookup j (insert k v d) ≡ (if k == j then some v else lookup j d)
  unfolding lookup insert
  lookup-insert k j v [] = refl
  lookup-insert k j v ((i, w) ∷ d) =
      ground (arith, e.beq_iff k j, e.beq_iff i k, e.beq_iff i j, lookup-insert k j v d)

  pub lookup-erase :
      (k j : K) (d : Dict K V) → lookup j (erase k d) ≡ (if k == j then none else lookup j d)
  unfolding lookup erase
  lookup-erase k j [] = ground arith
  lookup-erase k j ((i, w) ∷ d) =
      ground (arith, e.beq_iff k j, e.beq_iff i k, e.beq_iff i j, lookup-erase k j d)

  -- No key stands twice, as in every dict.
  abbrev pub IsUnique : Dict K V → Type κ
  IsUnique [] = Unit
  IsUnique ((k, v) ∷ d) = (lookup k d ≡ none) × IsUnique d

  pub insert-IsUnique : (k : K) (v : V) (d : Dict K V) → IsUnique d → IsUnique (insert k v d)
  unfolding insert lookup
  insert-IsUnique k v [] u = (refl, tt)
  insert-IsUnique k v ((j, w) ∷ d) u =
      ground (arith, e.beq_iff j k, e.beq_iff k j, insert-IsUnique k v d u.1, lookup-insert k j v d)

  pub erase-IsUnique : (k : K) (d : Dict K V) → IsUnique d → IsUnique (erase k d)
  unfolding erase
  erase-IsUnique k [] u = tt
  erase-IsUnique k ((j, w) ∷ d) u = ground (arith, erase-IsUnique k d u.1, lookup-erase k j d)

  pub erase_absent : (k : K) (d : Dict K V) → lookup k d ≡ none → erase k d ≡ d
  unfolding lookup erase
  erase_absent k [] h = refl
  erase_absent k ((j, w) ∷ d) h = ground (arith, erase_absent k d)

  -- How many entries pass a test, after the entry of one key is taken away.
  pub count_if-erase :
      (test : K × V → Bool) (k : K) (v : V) (d : Dict K V)
      → IsUnique d
      → lookup k d ≡ some v
      → count_if test d ≡ count_if test (erase k d) + (if test (k, v) then 1 else 0)
  unfolding lookup erase
  count_if-erase test k v [] u h = ground arith
  count_if-erase test k v ((j, w) ∷ d) u h =
      ground (arith, e.beq_iff j k, erase_absent k d, count_if-erase test k v d u.1)

  pub count_if-insert_new :
      (test : K × V → Bool) (k : K) (v : V) (d : Dict K V)
      → lookup k d ≡ none
      → count_if test (insert k v d) ≡ count_if test d + (if test (k, v) then 1 else 0)
  unfolding lookup insert
  count_if-insert_new test k v [] h = ground arith
  count_if-insert_new test k v ((j, w) ∷ d) h = ground (arith, count_if-insert_new test k v d)

module _ {ℓ} {K : Type ℓ} ⦃e : Eq K⦄ where
  -- `k in s`
  unfoldable pub contains : K → List K → Bool
  contains k [] = false
  contains k (j ∷ s) = (j == k) || contains k s

  -- s.add(k)
  unfoldable pub add : K → List K → List K
  unfolding contains
  add k s = if contains k s then s else k ∷ s

  -- s.discard(k)
  unfoldable pub discard : K → List K → List K
  discard k [] = []
  discard k (j ∷ s) = let rest = discard k s in if j == k then rest else j ∷ rest

  pub contains-add : (k j : K) (s : List K) → contains j (add k s) ≡ ((k == j) || contains j s)
  unfolding add
  contains-add k j s = ground (arith, e.beq_iff k j)

  pub contains-discard :
      (k j : K) (s : List K) → contains j (discard k s) ≡ (if k == j then false else contains j s)
  unfolding contains discard
  contains-discard k j [] = ground arith
  contains-discard k j (i ∷ s) =
      ground (arith, e.beq_iff k j, e.beq_iff i k, e.beq_iff i j, contains-discard k j s)

module _ {ℓ κ} {K : Type ℓ} {V : Type κ} ⦃e : Eq K⦄ where
  -- `{k: v for k, v in d.items() if test((k, v))}`, seen through a lookup.
  abbrev pub keep_found : (K × V → Bool) → K → Option V → Option V
  keep_found test k none = none
  keep_found test k (some v) = if test (k, v) then some v else none

  lookup-keep_absent :
      (test : K × V → Bool) (k : K) (d : Dict K V)
      → lookup k d ≡ none
      → lookup k (keep_if test d) ≡ none
  unfolding lookup
  lookup-keep_absent test k [] h = refl
  lookup-keep_absent test k ((j, v) ∷ d) h = ground (arith, lookup-keep_absent test k d)

  pub lookup-keep_if :
      (test : K × V → Bool) (k : K) (d : Dict K V)
      → IsUnique d
      → lookup k (keep_if test d) ≡ keep_found test k (lookup k d)
  unfolding lookup
  lookup-keep_if test k [] u = refl
  lookup-keep_if test k ((j, v) ∷ d) u =
      ground (arith, e.beq_iff j k, lookup-keep_absent test k d, lookup-keep_if test k d u.1)

  pub keep_if-IsUnique :
      (test : K × V → Bool) (d : Dict K V) → IsUnique d → IsUnique (keep_if test d)
  keep_if-IsUnique test [] u = tt
  keep_if-IsUnique test ((j, v) ∷ d) u =
      ground (arith, lookup-keep_absent test j d, keep_if-IsUnique test d u.1)

  pub length-erase :
      (k : K) (d : Dict K V)
      → IsUnique d
      → length d ≡ length (erase k d) + (if is_some (lookup k d) then 1 else 0)
  unfolding lookup erase
  length-erase k [] u = refl
  length-erase k ((j, v) ∷ d) u =
      ground (arith, e.beq_iff j k, erase_absent k d, length-erase k d u.1)

module _ {ℓ κ μ} {K : Type ℓ} {V : Type κ} ⦃e : Eq K⦄ (P : K → V → Type μ) (k : K)
    (d : Dict K V) where
  -- What every entry satisfies, after one entry is written or taken away.
  pub every-insert :
      (v : V)
      → P k v
      → ((j : K) (w : V) → (k == j) ≡ false → lookup j d ≡ some w → P j w)
      → (j : K) (w : V) → lookup j (insert k v d) ≡ some w
      → P j w
  every-insert v here rest j w found = elim (Bool-cases (k == j)) [
    | inl same ↦
        let e1 : some v ≡ some w = rw (lookup-insert k j v d, same) at found in
        subst₂ P ((e.beq_iff k j).0 same) (some_injective e1) here
    | inr other ↦ rest j w other (rw (lookup-insert k j v d, other) at found)
  ]

  pub every-erase :
      ((j : K) (w : V) → (k == j) ≡ false → lookup j d ≡ some w → P j w)
      → (j : K) (w : V) → lookup j (erase k d) ≡ some w
      → P j w
  every-erase rest j w found = elim (Bool-cases (k == j)) [
    | inl same ↦ absurd (cc (rw (lookup-erase k j d, same) at found))
    | inr other ↦ rest j w other (rw (lookup-erase k j d, other) at found)
  ]
