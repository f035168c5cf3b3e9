-- ===== src/Rl/Buffer/Groups.antt =====
-- Cutting a bucket into groups and putting items into buckets lose nothing and keep the order.
pub mod Pass
use safactory.Base.{
  arith, string_eq, nat_eq, Dict, List, String, [], append-nil, append_assoc, drop, false,
  if◌then◌else◌, keep_if, length, length-drop, lookup, lookup-insert, refl, suc, sym, zero, ℕ, ◌++◌,
  ◌<◌, ◌==◌, ◌∷◌, ◌≡◌, ==-self, IsUnique, if_elim, insert-IsUnique, length-take, none, take,
  take-append-drop, Bool-cases, ap, inl, inr, ◌+◌, ◌∙◌, subst,
}
use safactory.Rl.Buffer.{
  Item, cut, enqueue, enqueue_all, or_none, cut_bucket, labelled, pop_ready_groups, with_left,
  Server, accumulate_and_pop_ready_groups,
}

unfoldable pub concat : List (List Item) → List Item
concat [] = []
concat (g ∷ gs) = g ++ concat gs

-- The items of one instance among those that come in.
abbrev pub items_of : String → List Item → List Item
items_of id items = keep_if (λ i. i.instance_id == id) items

-- The groups of one instance among those that are ready.
abbrev pub groups_of : String → List (String × List Item) → List (List Item)
groups_of id [] = []
groups_of id ((j, g) ∷ ready) = let rest = groups_of id ready in if j == id then g ∷ rest else rest

unfoldable pub bucket_of : String → Dict String (List Item) → List Item
unfolding or_none
bucket_of id d = or_none (lookup id d)

abbrev pub AllFull : ℕ → List (List Item) → Type 0
AllFull size [] = Unit
AllFull size (g ∷ gs) = (length g ≡ size) × AllFull size gs

abbrev pub EachFull : ℕ → List (String × List Item) → Type 0
EachFull size [] = Unit
EachFull size ((id, g) ∷ ready) = (length g ≡ size) × EachFull size ready

-- Cutting a bucket.
cut-concat :
    (fuel size : ℕ) (bucket : List Item)
    → concat (cut fuel size bucket).0 ++ (cut fuel size bucket).1 ≡ bucket
unfolding cut concat
cut-concat zero size bucket = refl
cut-concat (suc fuel) size bucket =
    let rest = cut fuel size (drop size bucket) in
    ground (
      arith,
      cut-concat fuel size (drop size bucket),
      take-append-drop size bucket,
      append_assoc (take size bucket) (concat rest.0) rest.1,
    )

cut-AllFull : (fuel size : ℕ) (bucket : List Item) → AllFull size (cut fuel size bucket).0
unfolding cut
cut-AllFull zero size bucket = tt
cut-AllFull (suc fuel) size bucket =
    ground (arith, cut-AllFull fuel size (drop size bucket), length-take size bucket)

cut-left :
    (fuel size : ℕ) (bucket : List Item)
    → 0 < size
    → length bucket < fuel
    → length (cut fuel size bucket).1 < size
unfolding cut
cut-left zero size bucket h enough = absurd (omega arith)
cut-left (suc fuel) size bucket h enough =
    ground (arith, cut-left fuel size (drop size bucket), length-drop size bucket)

-- Enqueuing.
bucket_of-enqueue :
    (id : String) (d : Dict String (List Item)) (i : Item)
    → (id == "") ≡ false
    → bucket_of id (enqueue d i) ≡ bucket_of id d ++ items_of id (i ∷ [])
unfolding bucket_of enqueue or_none
bucket_of-enqueue id d i named = ground (
  arith,
  string_eq.beq_iff i.instance_id id,
  append-nil (or_none (lookup id d)),
  lookup-insert i.instance_id id (or_none (lookup i.instance_id d) ++ (i ∷ [])) d,
)

bucket_of-enqueue_all :
    (id : String) (d : Dict String (List Item)) (items : List Item)
    → (id == "") ≡ false
    → bucket_of id (enqueue_all d items) ≡ bucket_of id d ++ items_of id items
unfolding enqueue_all
bucket_of-enqueue_all id d [] named = sym (append-nil (bucket_of id d))
bucket_of-enqueue_all id d (i ∷ items) named = ground (
  arith,
  bucket_of-enqueue_all id (enqueue d i) items,
  bucket_of-enqueue id d i,
  append_assoc (bucket_of id d) (items_of id (i ∷ [])) (items_of id items),
)

enqueue-IsUnique : (d : Dict String (List Item)) (i : Item) → IsUnique d → IsUnique (enqueue d i)
unfolding enqueue
enqueue-IsUnique d i u =
    let b = or_none (lookup i.instance_id d) ++ (i ∷ []) in
    if_elim IsUnique (i.instance_id == "") _ _ u (insert-IsUnique i.instance_id b d u)

enqueue_all-IsUnique :
    (d : Dict String (List Item)) (items : List Item) → IsUnique d → IsUnique (enqueue_all d items)
unfolding enqueue_all
enqueue_all-IsUnique d [] u = u
enqueue_all-IsUnique d (i ∷ items) u =
    enqueue_all-IsUnique (enqueue d i) items (enqueue-IsUnique d i u)
