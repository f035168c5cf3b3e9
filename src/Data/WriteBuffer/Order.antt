-- ===== src/Data/WriteBuffer/Order.antt =====
-- A flush order changes the order of the model classes and not which there are.
use safactory.Base.{string_eq, nat_eq, List, String, [], arith, contains, refl, ℕ, ◌∷◌, ◌≡◌}
use safactory.Data.WriteBuffer.Flush.{priority, place, sort_models_by_priority, sorted_by}

pub contains-place :
    (key : String → ℕ) (k c : String) (ds : List String)
    → contains k (place key c ds) ≡ contains k (c ∷ ds)
unfolding place contains
contains-place key k c [] = refl
contains-place key k c (d ∷ ds) = ground (arith, contains-place key k c ds)

contains-sorted_by :
    (key : String → ℕ) (k : String) (cs : List String)
    → contains k (sorted_by key cs) ≡ contains k cs
unfolding sorted_by contains
contains-sorted_by key k [] = refl
contains-sorted_by key k (c ∷ cs) =
    ground (arith, contains-place key k c (sorted_by key cs), contains-sorted_by key k cs)

pub contains-sort :
    (order : List String) (k : String) (cs : List String)
    → contains k (sort_models_by_priority order cs) ≡ contains k cs
unfolding sort_models_by_priority
contains-sort [] k cs = refl
contains-sort (o ∷ os) k cs = contains-sorted_by (priority (o ∷ os)) k cs
