-- ===== src/Data/Upserts/Newest.antt =====
-- A batch writes the newest row of each key, which is what its rows would leave one by one.
use safactory.Base.{
  arith, Dict, IsUnique, List, Option, [], ap, if◌then◌else◌, insert, insert-IsUnique, lookup,
  lookup-insert, none, refl, some, sym, ◌++◌, ◌==◌, ◌∙◌, ◌∷◌, ◌≡◌,
}
use safactory.Data.Upserts.{
  row_key_eq, Request, Row, RowKey, put_rows, row_key, rows_by_key, rows_of, values,
}

-- The row of a key after these rows, where it was this one before.
unfoldable pub newest : RowKey → List Row → Option Row → Option Row
newest k [] old = old
newest k (r ∷ rs) old = newest k rs (if row_key r == k then some r else old)

abbrev pub IsKeyed : Dict RowKey Row → Type 0
IsKeyed [] = Unit
IsKeyed ((k, r) ∷ d) = (row_key r ≡ k) × IsKeyed d

pub lookup-put_rows :
    (k : RowKey) (d : Dict RowKey Row) (rs : List Row)
    → lookup k (put_rows d rs) ≡ newest k rs (lookup k d)
unfolding put_rows newest
lookup-put_rows k d [] = refl
lookup-put_rows k d (r ∷ rs) =
    lookup-put_rows k (insert (row_key r) r d) rs
    ∙ ap (newest k rs) (lookup-insert (row_key r) k r d)

insert-IsKeyed : (r : Row) (d : Dict RowKey Row) → IsKeyed d → IsKeyed (insert (row_key r) r d)
unfolding insert
insert-IsKeyed r [] h = (refl, tt)
insert-IsKeyed r ((j, w) ∷ d) h = ground (arith, insert-IsKeyed r d)

put_rows-IsKeyed : (d : Dict RowKey Row) (rs : List Row) → IsKeyed d → IsKeyed (put_rows d rs)
unfolding put_rows
put_rows-IsKeyed d [] h = h
put_rows-IsKeyed d (r ∷ rs) h = put_rows-IsKeyed (insert (row_key r) r d) rs (insert-IsKeyed r d h)

put_rows-IsUnique : (d : Dict RowKey Row) (rs : List Row) → IsUnique d → IsUnique (put_rows d rs)
unfolding put_rows
put_rows-IsUnique d [] h = h
put_rows-IsUnique d (r ∷ rs) h =
    put_rows-IsUnique (insert (row_key r) r d) rs (insert-IsUnique (row_key r) r d h)

abbrev pub or_else : Option Row → Option Row → Option Row
or_else none old = old
or_else (some r) old = some r

newest-values :
    (k : RowKey) (d : Dict RowKey Row) (old : Option Row)
    → IsUnique d
    → IsKeyed d
    → newest k (values d) old ≡ or_else (lookup k d) old
unfolding newest lookup
newest-values k [] old u h = refl
newest-values k ((j, r) ∷ d) old u h = ground (
  arith,
  row_key_eq.beq_iff j k,
  newest-values k d old u.1 h.1,
  newest-values k d (some r) u.1 h.1,
)

newest-or_else :
    (k : RowKey) (rs : List Row) (old : Option Row)
    → newest k rs old ≡ or_else (newest k rs none) old
unfolding newest
newest-or_else k [] old = refl
newest-or_else k (r ∷ rs) old =
    ground (arith, newest-or_else k rs old, newest-or_else k rs (some r))

-- What a batch writes leaves each key as its rows would leave it one by one.
pub newest-rows_by_key :
    (k : RowKey) (qs : List Request) (old : Option Row)
    → newest k (values (rows_by_key qs)) old ≡ newest k (rows_of qs) old
unfolding rows_by_key lookup
newest-rows_by_key k qs old =
    newest-values k (rows_by_key qs) old (put_rows-IsUnique [] (rows_of qs) tt)
      (put_rows-IsKeyed [] (rows_of qs) tt)
    ∙ ap (λ o. or_else o old) (lookup-put_rows k [] (rows_of qs))
    ∙ sym (newest-or_else k (rows_of qs) old)

pub newest-append :
    (k : RowKey) (xs ys : List Row) (old : Option Row)
    → newest k (xs ++ ys) old ≡ newest k ys (newest k xs old)
unfolding newest
newest-append k [] ys old = refl
newest-append k (r ∷ xs) ys old = newest-append k xs ys (if row_key r == k then some r else old)
