-- ===== src/Data/WriteBuffer/Grouping.antt =====
-- The groups of updates against the entries that they are made of.
use safactory.Base.{
  string_eq, lookup, Dict, List, Option, String, [], ap, append-nil, append_assoc, arith, keep_if,
  length, lookup-insert, none, refl, some, sym, ◌++◌, ◌+◌, ◌==◌, ◌∙◌, ◌∷◌, ◌≡◌,
}
use safactory.Data.WriteBuffer.{fields_eq, sum_lengths, UpdateEntry, or_empty}
use safactory.Data.WriteBuffer.Flush.{group_from, add_to_group, group_updates_by_fields}
use safactory.Data.WriteBuffer.Sizes.{sum_lengths-append}

-- The entries of one set of fields, in their order.
abbrev pub entries_for : List String → List UpdateEntry → List UpdateEntry
entries_for fields es = keep_if (λ e. e.update_fields == fields) es

abbrev pub unless_empty : List UpdateEntry → Option (List UpdateEntry)
unless_empty [] = none
unless_empty (e ∷ es) = some (e ∷ es)

abbrev joined : Option (List UpdateEntry) → List UpdateEntry → Option (List UpdateEntry)
joined none es = unless_empty es
joined (some xs) es = some (xs ++ es)

joined-append :
    (o : Option (List UpdateEntry)) (e : UpdateEntry) (es : List UpdateEntry)
    → joined (some (or_empty o ++ (e ∷ []))) es ≡ joined o (e ∷ es)
unfolding or_empty
joined-append none e es = refl
joined-append (some xs) e es = ap some (append_assoc xs (e ∷ []) es)

lookup-add :
    (fields : List String) (e : UpdateEntry) (es : List UpdateEntry)
    (g : Dict (List String) (List UpdateEntry))
    → joined (lookup fields (add_to_group e g)) (entries_for fields es)
      ≡ joined (lookup fields g) (entries_for fields (e ∷ es))
unfolding add_to_group
lookup-add fields e es g = ground (
  arith,
  fields_eq.beq_iff e.update_fields fields,
  lookup-insert e.update_fields fields (or_empty (lookup e.update_fields g) ++ (e ∷ [])) g,
  joined-append (lookup e.update_fields g) e (entries_for fields es),
)

lookup-group_from :
    (fields : List String) (g : Dict (List String) (List UpdateEntry)) (es : List UpdateEntry)
    → lookup fields (group_from g es) ≡ joined (lookup fields g) (entries_for fields es)
unfolding group_from
lookup-group_from fields g [] = joined-nil (lookup fields g)
  where
    joined-nil : (o : Option (List UpdateEntry)) → o ≡ joined o []
    joined-nil none = refl
    joined-nil (some xs) = ap some (sym (append-nil xs))
lookup-group_from fields g (e ∷ es) =
    lookup-group_from fields (add_to_group e g) es ∙ lookup-add fields e es g

sum-group_from :
    (g : Dict (List String) (List UpdateEntry)) (es : List UpdateEntry)
    → sum_lengths (group_from g es) ≡ sum_lengths g + length es
unfolding group_from add_to_group
sum-group_from g [] = omega arith
sum-group_from g (e ∷ es) =
    omega (arith, sum-group_from (add_to_group e g) es, sum_lengths-append e.update_fields e g)

-- The updates that are written together are those with the same fields, in the order in which they
-- were buffered, no group is empty, and together the groups hold as many entries as were buffered.
pub group_lem :
    (fields : List String) (es : List UpdateEntry)
    → (lookup fields (group_updates_by_fields es) ≡ unless_empty (entries_for fields es))
      × (sum_lengths (group_updates_by_fields es) ≡ length es)
unfolding group_updates_by_fields lookup sum_lengths
group_lem fields es = (lookup-group_from fields [] es, omega (arith, sum-group_from [] es))
