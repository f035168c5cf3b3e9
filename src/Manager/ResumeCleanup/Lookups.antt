-- ===== src/Manager/ResumeCleanup/Lookups.antt =====
-- What a dict of rows holds once a row is put at a path.
use safactory.Base.{
  string_eq, lookup, insert, lookup-insert, Dict, String, [], none, some, ◌==◌, ◌≡◌, ◌⊎◌, inl, inr,
  arith, Bool-cases, some_injective,
}
use safactory.Data.Environments.{EnvRow}

pub found_in-insert :
    (k j : String) (v t : EnvRow) (d : Dict String EnvRow)
    → lookup j (insert k v d) ≡ some t
    → ((k ≡ j) × (v ≡ t)) ⊎ (lookup j d ≡ some t)
found_in-insert k j v t d h = elim (Bool-cases (k == j)) [
  | inl same ↦
      inl ((string_eq.beq_iff k j).0 same, some_injective (ground (arith, lookup-insert k j v d)))
  | inr other ↦ inr (ground (arith, lookup-insert k j v d))
]

pub keeps-insert :
    (k j : String) (v t : EnvRow) (d : Dict String EnvRow)
    → lookup k d ≡ none
    → lookup j d ≡ some t
    → lookup j (insert k v d) ≡ some t
keeps-insert k j v t d e h = ground (arith, lookup-insert k j v d, string_eq.beq_iff k j)

pub lookup_empty : (k : String) (v : EnvRow) → lookup k [] ≡ some v → ⊥
unfolding lookup
lookup_empty k v h = absurd (cc h)

pub lookup_inserted :
    (k : String) (v : EnvRow) (d : Dict String EnvRow) → lookup k (insert k v d) ≡ some v
lookup_inserted k v d = ground (arith, lookup-insert k k v d, string_eq.beq_iff k k)
