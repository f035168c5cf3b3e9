-- ===== src/Data/Upserts.antt =====
-- core/data_manager/upsert_batcher.py: complete rows are written in batches, and a request is
-- acknowledged once its rows are stored. The writer is a parameter, and so is how many requests come
-- in before the deadline of a batch.
pub mod Newest
pub mod Batches
pub mod Examples
use safactory.Base.{
  pair_eq, string_eq, Bool, Dict, Eq, List, Option, String, [], false, if◌then◌else◌, insert,
  length, ltb, map, none, some, suc, true, zero, ℕ, ◌++◌, ◌+◌, ◌∷◌,
}

abbrev pub RowKey : Type 0
RowKey = String × String

instance unfoldable pub row_key_eq : Eq RowKey
row_key_eq = pair_eq

-- A row, with its other columns as one text.
pub record Row : Type 0 where
  pub job_id : String
  pub record_id : String
  pub columns : String

pub row_key : Row → RowKey
row_key r = (r.job_id, r.record_id)

-- `asyncio.Future[List[str]]`
pub data Future : Type 0 where
  pending cancelled : Future
  result : List String → Future
  exception : String → Future

-- `_UpsertRequest`
pub record Request : Type 0 where
  pub rows : List Row
  pub future : Future

pub data QueueItem : Type 0 where
  request : Request → QueueItem
  stop : QueueItem

-- `rows_by_key[key] = row`, row by row.
pub put_rows : Dict RowKey Row → List Row → Dict RowKey Row
unfolding row_key row_key_eq
put_rows d [] = d
put_rows d (r ∷ rs) = put_rows (insert (row_key r) r d) rs

pub rows_of : List Request → List Row
rows_of [] = []
rows_of (q ∷ qs) = q.rows ++ rows_of qs

pub rows_by_key : List Request → Dict RowKey Row
unfolding put_rows rows_of
rows_by_key qs = put_rows [] (rows_of qs)

-- `list(d.values())`
abbrev pub values : Dict RowKey Row → List Row
values d = map (λ e. e.1) d

-- `if not future.done()`: the exception of the writer, or the ids of the rows.
pub answered : Option String → List Row → Future → Future
answered none rows pending = result (map (λ r. r.record_id) rows)
answered (some e) rows pending = exception e
answered error rows cancelled = cancelled
answered error rows (result ids) = result ids
answered error rows (exception e) = exception e

pub settle : Option String → Request → Request
unfolding answered
settle error q = record q { future = answered error q.rows q.future }

-- The queue of a batch once its first request is there: requests are added until there are enough
-- rows, the deadline passes, or the batcher is stopped. The answer is the requests, what is left of
-- the queue, and whether it was stopped.
pub gather : ℕ → ℕ → ℕ → List QueueItem → List Request × List QueueItem × Bool
gather size count arrivals [] = ([], [], false)
gather size count zero (x ∷ queue) = ([], x ∷ queue, false)
gather size count (suc n) (stop ∷ queue) =
    if ltb count size then ([], queue, true) else ([], stop ∷ queue, false)
gather size count (suc n) (request q ∷ queue) =
    let more = gather size (count + length q.rows) n queue in
    if ltb count size then (q ∷ more.0, more.1, more.2) else ([], request q ∷ queue, false)

module _ {Store : Type 0} (writer : Store → List Row → Store × Option String) where
  pub flush : Store → List Request → Store × List Request
  unfolding rows_by_key settle
  flush store qs =
      let (store', error) = writer store (values (rows_by_key qs)) in
      (store', map (settle error) qs)

  -- `_run`: the store and the settled requests. Each round takes a request at least, so that the
  -- length of the queue is enough fuel.
  pub run : ℕ → (ℕ → ℕ) → ℕ → Store → List QueueItem → Store × List Request
  unfolding gather
  run size arrivals zero store queue = (store, [])
  run size arrivals (suc fuel) store [] = (store, [])
  run size arrivals (suc fuel) store (stop ∷ queue) = (store, [])
  run size arrivals (suc fuel) store (request q ∷ queue) =
      let batch = gather size (length q.rows) (arrivals fuel) queue in
      let now = flush store (q ∷ batch.0) in
      let later = run size arrivals fuel now.0 batch.1 in
      if batch.2 then now else (later.0, now.1 ++ later.1)
