-- ===== src/Rl/Buffer/Groups/Pass.antt =====
-- Grouping loses nothing, keeps the order, and hands out full groups only.
use safactory.Base.{
  arith, string_eq, nat_eq, ==-self, Bool-cases, Dict, IsUnique, List, String, [], ap, append-nil,
  false, if◌then◌else◌, inl, inr, length, lookup, none, refl, subst, sym, ℕ, ◌++◌, ◌+◌, ◌<◌, ◌==◌,
  ◌∙◌, ◌∷◌, ◌≡◌,
}
use safactory.Rl.Buffer.{
  Item, Server, accumulate_and_pop_ready_groups, cut_bucket, enqueue_all, labelled, or_none,
  pop_ready_groups, with_left,
}
use safactory.Rl.Buffer.Groups.{
  concat, AllFull, EachFull, bucket_of, bucket_of-enqueue_all, cut-AllFull, cut-concat, cut-left,
  enqueue_all-IsUnique, groups_of, items_of,
}

groups_of-labelled :
    (id j : String) (gs : List (List Item)) (ready : List (String × List Item))
    → groups_of id (labelled j gs ++ ready)
      ≡ (if j == id then gs ++ groups_of id ready else groups_of id ready)
unfolding labelled
groups_of-labelled id j [] ready = ground arith
groups_of-labelled id j (g ∷ gs) ready = ground (arith, groups_of-labelled id j gs ready)

EachFull-append :
    (size : ℕ) (id : String) (gs : List (List Item)) (ready : List (String × List Item))
    → AllFull size gs
    → EachFull size ready
    → EachFull size (labelled id gs ++ ready)
unfolding labelled
EachFull-append size id [] ready f e = e
EachFull-append size id (g ∷ gs) ready f e = (f.0, EachFull-append size id gs ready f.1 e)

lookup-with_left :
    (id j : String) (left : List Item) (d : Dict String (List Item))
    → (j == id) ≡ false
    → lookup id (with_left j left d) ≡ lookup id d
unfolding with_left lookup
lookup-with_left id j [] d other = refl
lookup-with_left id j (i ∷ left) d other = ground arith

bucket_of-with_left :
    (id : String) (left : List Item) (d : Dict String (List Item))
    → lookup id d ≡ none
    → bucket_of id (with_left id left d) ≡ left
unfolding with_left lookup bucket_of or_none
bucket_of-with_left id [] d new = ground arith
bucket_of-with_left id (i ∷ left) d new = ground (arith, ==-self id)

pop_absent :
    (size : ℕ) (id : String) (d : Dict String (List Item))
    → lookup id d ≡ none
    → (groups_of id (pop_ready_groups size d).0 ≡ [])
      × (lookup id (pop_ready_groups size d).1 ≡ none)
unfolding pop_ready_groups lookup
pop_absent size id [] new = (refl, refl)
pop_absent size id ((j, b) ∷ d) new =
    let cuts = cut_bucket size b in
    let rest = pop_ready_groups size d in
    (
      ground (arith, pop_absent size id d, groups_of-labelled id j cuts.0 rest.0),
      ground (arith, pop_absent size id d, lookup-with_left id j cuts.1 rest.1),
    )

-- The instance of the bucket at the front, and another one.
module _ (size : ℕ) (j : String) (b : List Item) (d : Dict String (List Item))
    (new : lookup j d ≡ none) where
  front_groups : groups_of j (pop_ready_groups size ((j, b) ∷ d)).0 ≡ (cut_bucket size b).0
  unfolding pop_ready_groups
  front_groups =
      let gs = (cut_bucket size b).0 in
      ground (
        arith,
        ==-self j,
        groups_of-labelled j j gs (pop_ready_groups size d).0,
        pop_absent size j d new,
        append-nil gs,
      )

  front_bucket : bucket_of j (pop_ready_groups size ((j, b) ∷ d)).1 ≡ (cut_bucket size b).1
  unfolding pop_ready_groups
  front_bucket =
      bucket_of-with_left j (cut_bucket size b).1 (pop_ready_groups size d).1
        (pop_absent size j d new).1

  front :
      concat (groups_of j (pop_ready_groups size ((j, b) ∷ d)).0)
        ++ bucket_of j (pop_ready_groups size ((j, b) ∷ d)).1
      ≡ b
  unfolding cut_bucket
  front = rw (front_groups, front_bucket) (cut-concat (length b + 1) size b)

other_groups :
    (size : ℕ) (id j : String) (b : List Item) (d : Dict String (List Item))
    → (j == id) ≡ false
    → (groups_of id (pop_ready_groups size ((j, b) ∷ d)).0
        ≡ groups_of id (pop_ready_groups size d).0)
      × (bucket_of id (pop_ready_groups size ((j, b) ∷ d)).1
          ≡ bucket_of id (pop_ready_groups size d).1)
unfolding pop_ready_groups bucket_of
other_groups size id j b d other =
    let cuts = cut_bucket size b in
    let rest = pop_ready_groups size d in
    (
      ground (arith, groups_of-labelled id j cuts.0 rest.0),
      ap or_none (lookup-with_left id j cuts.1 rest.1 other),
    )

pop-bucket_of :
    (size : ℕ) (id : String) (d : Dict String (List Item))
    → IsUnique d
    → concat (groups_of id (pop_ready_groups size d).0) ++ bucket_of id (pop_ready_groups size d).1
      ≡ bucket_of id d
unfolding lookup bucket_of or_none
pop-bucket_of size id [] u = unfold pop_ready_groups in unfold concat in refl
pop-bucket_of size id ((j, b) ∷ d) u = elim (Bool-cases (j == id)) [
  | inl same ↦
      let whole : bucket_of j ((j, b) ∷ d) ≡ b = ground (arith, ==-self j) in
      subst
        (λ k.
          concat (groups_of k (pop_ready_groups size ((j, b) ∷ d)).0)
            ++ bucket_of k (pop_ready_groups size ((j, b) ∷ d)).1
          ≡ bucket_of k ((j, b) ∷ d))
        ((string_eq.beq_iff j id).0 same) (front size j b d u.0 ∙ sym whole)
  | inr other ↦
      let (gs, left) = other_groups size id j b d other in
      ground (arith, gs, left, pop-bucket_of size id d u.1)
]

with_left_short :
    (size : ℕ) (id j : String) (left : List Item) (d : Dict String (List Item))
    → length left < size
    → length (bucket_of id d) < size
    → length (bucket_of id (with_left j left d)) < size
unfolding with_left bucket_of or_none lookup
with_left_short size id j [] d h rest = rest
with_left_short size id j (i ∷ left) d h rest = ground arith

left_short :
    (size : ℕ) (id : String) (d : Dict String (List Item))
    → 0 < size
    → length (bucket_of id (pop_ready_groups size d).1) < size
unfolding pop_ready_groups cut_bucket bucket_of or_none lookup
left_short size id [] h = h
left_short size id ((j, b) ∷ d) h =
    with_left_short size id j (cut_bucket size b).1 (pop_ready_groups size d).1
      (cut-left (length b + 1) size b h (omega arith)) (left_short size id d h)

ready-EachFull :
    (size : ℕ) (d : Dict String (List Item)) → EachFull size (pop_ready_groups size d).0
unfolding pop_ready_groups cut_bucket
ready-EachFull size [] = tt
ready-EachFull size ((j, b) ∷ d) =
    EachFull-append size j (cut_bucket size b).0 (pop_ready_groups size d).0
      (cut-AllFull (length b + 1) size b) (ready-EachFull size d)

-- Nothing is lost, nothing is handed out twice and nothing overtakes: of each instance, the groups
-- handed out and the items that stay pending are, in this order, the items that were pending and
-- those that have come in.
pub accumulate_lem :
    (s : Server) (items : List Item) (id : String)
    → IsUnique s.pending_items_by_instance
    → (id == "") ≡ false
    → let q = accumulate_and_pop_ready_groups s items in
      concat (groups_of id q.1) ++ bucket_of id q.0.pending_items_by_instance
      ≡ bucket_of id s.pending_items_by_instance ++ items_of id items
unfolding accumulate_and_pop_ready_groups
accumulate_lem s items id u named =
    let d = enqueue_all s.pending_items_by_instance items in
    pop-bucket_of s.group_size id d (enqueue_all-IsUnique s.pending_items_by_instance items u)
    ∙ bucket_of-enqueue_all id s.pending_items_by_instance items named

-- With a group size above 0 every group handed out has exactly that size, and every instance is
-- left with fewer pending items.
pub full_groups :
    (s : Server) (items : List Item)
    → 0 < s.group_size
    → let q = accumulate_and_pop_ready_groups s items in
      EachFull s.group_size q.1
      × ((id : String) → length (bucket_of id q.0.pending_items_by_instance) < s.group_size)
unfolding accumulate_and_pop_ready_groups
full_groups s items positive =
    let d = enqueue_all s.pending_items_by_instance items in
    (ready-EachFull s.group_size d, λ id. left_short s.group_size id d positive)
