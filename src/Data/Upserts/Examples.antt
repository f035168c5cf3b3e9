-- ===== src/Data/Upserts/Examples.antt =====
-- Tests of the upsert batcher, and its theorem at a concrete writer and queue.
use safactory.Base.{
  refl, arith, Dict, List, Option, String, [], insert, lookup, map, none, ◌∷◌, ◌≡◌,
}
use safactory.Data.Upserts.{
  row_key_eq, Request, Row, RowKey, answered, cancelled, flush, gather, pending, put_rows, result,
  row_key, rows_by_key, rows_of, run, settle, values,
}
use safactory.Data.Upserts.Newest.{newest, lookup-put_rows}
use safactory.Data.Upserts.Batches.{run_lem, queue_of}

-- A table by its key, which takes every row.
abbrev upsert : Dict RowKey Row → List Row → Dict RowKey Row × Option String
upsert table rows = (put_rows table rows, none)

abbrev read : Dict RowKey Row → RowKey → Option Row
read table k = lookup k table

upsert-newest :
    (table : Dict RowKey Row) (rows : List Row) (k : RowKey)
    → read (upsert table rows).0 k ≡ newest k rows (read table k)
upsert-newest table rows k = lookup-put_rows k table rows

abbrev row : String → String → Row
row id text = record { job_id = "j"; record_id = id; columns = text }

abbrev requests : List Request
requests =
    record { rows = row "1" "old" ∷ row "2" "x" ∷ []; future = pending }
    ∷ record { rows = row "1" "new" ∷ []; future = cancelled }
    ∷ record { rows = row "3" "y" ∷ []; future = pending }
    ∷ []

batch_merged : values (rows_by_key requests) ≡ row "1" "new" ∷ row "2" "x" ∷ row "3" "y" ∷ []
unfolding rows_by_key rows_of put_rows row_key row_key_eq insert
batch_merged = refl

all_answered :
    (run upsert 2 (λ n. 1) 4 [] (queue_of requests)).1
    ≡ record { rows = row "1" "old" ∷ row "2" "x" ∷ []; future = result ("1" ∷ "2" ∷ []) }
      ∷ record { rows = row "1" "new" ∷ []; future = cancelled }
      ∷ record { rows = row "3" "y" ∷ []; future = result ("3" ∷ []) }
      ∷ []
unfolding run flush gather rows_by_key rows_of put_rows row_key row_key_eq insert settle answered
all_answered = refl

run_lem_example :
    ((k : RowKey)
      → lookup k (run upsert 2 (λ n. 1) 4 [] (queue_of requests)).0
        ≡ newest k (rows_of requests) (lookup k []))
    × ((run upsert 2 (λ n. 1) 4 [] (queue_of requests)).1 ≡ map (settle none) requests)
run_lem_example =
    run_lem upsert read (λ table rows. refl) upsert-newest 2 (λ n. 1) 4 [] requests (omega arith)
