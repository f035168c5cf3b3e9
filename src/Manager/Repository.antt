-- ===== src/Manager/Repository.antt =====
-- manager/repository.py: the rows of a job, read in pages after a cursor, buffered, and reserved for
-- the pool of agents. What each fetch meets (Moment) is a parameter.
pub mod Queue
pub mod Pages
pub mod Refills
pub mod Rounds
pub mod Reserving
pub mod Failures
pub mod Images
pub mod Examples
use safactory.Base.{
  string_eq, nat_eq, lookup, Bool, List, Option, String, [], drop, false, if◌then◌else◌, leb,
  length, max, none, not, some, suc, take, true, zero, ℕ, ◌&&◌, ◌++◌, ◌+◌, ◌-◌, ◌==◌, ◌||◌, ◌∷◌,
}
use safactory.Data.Environments.{EnvRow, list_environment_rows}
use safactory.Data.Environments.Active.{active_query}

-- `(limit, last_seen_id, fallback_offset)`
pub record FetchArgs : Type 0 where
  pub limit : ℕ
  pub last_seen_id : ℕ
  pub fallback_offset : ℕ

-- A fetch that has not been awaited to its end is known by its arguments. The data manager has a job
-- of its own, which it takes where the repository has none.
pub record Repository : Type 0 where
  pub manager_job_id : String
  pub job_id : String
  pub has_checker : Bool
  pub last_seen_id : ℕ
  pub fallback_offset : ℕ
  pub row_buffer : List EnvRow
  pub db_processing_done_cached : Bool
  pub stop_db_reads : Bool
  pub pending_fetch : Option FetchArgs

unfoldable pub init : String → String → Bool → Repository
init manager_job_id job_id has_checker = record {
  manager_job_id = manager_job_id;
  job_id = job_id;
  has_checker = has_checker;
  last_seen_id = 0;
  fallback_offset = 0;
  row_buffer = [];
  db_processing_done_cached = false;
  stop_db_reads = false;
  pending_fetch = none;
}

pub reset_cursor : Repository → Repository
unfolding init
reset_cursor r = init r.manager_job_id r.job_id r.has_checker

pub close : Repository → Repository
close r = record r { pending_fetch = none }

-- How a fetch ends: not in time, with a timeout of its own, with another exception, or with the table
-- as the fetch has read it.
pub data Reply : Type 0 where
  timed_out fetch_timed_out failed : Reply
  answered : List EnvRow → Reply

-- A fetch, and what the producer's checker says after it; none is its exception.
pub record Moment : Type 0 where
  pub reply : Reply
  pub checker : Option Bool

-- `_update_stop_state_locked`
pub update_stop_state : Repository → Repository
update_stop_state r =
    if r.stop_db_reads
    then r
    else record r { stop_db_reads = r.db_processing_done_cached && (length r.row_buffer == 0) }

pub fetch_args : ℕ → Repository → FetchArgs
fetch_args limit r = record {
  limit = limit;
  last_seen_id = r.last_seen_id;
  fallback_offset = r.fallback_offset;
}

pub same_args : FetchArgs → FetchArgs → Bool
same_args a b =
    (a.limit == b.limit)
    && (a.last_seen_id == b.last_seen_id)
    && (a.fallback_offset == b.fallback_offset)

pub is_pending : FetchArgs → Option FetchArgs → Bool
unfolding same_args
is_pending args none = false
is_pending args (some pending) = same_args pending args

-- The fetch, and whether it is started now.
pub get_or_start_fetch_task : FetchArgs → Repository → Repository × Bool
unfolding is_pending
get_or_start_fetch_task args r =
    if is_pending args r.pending_fetch
    then (r, false)
    else (record r { pending_fetch = some args }, true)

-- `int(rows[-1].get("id") or next_last_seen_id)`
pub next_last_seen_id : ℕ → List EnvRow → ℕ
next_last_seen_id last [] = last
next_last_seen_id last (row ∷ rows) = next_last_seen_id (if row.id == 0 then last else row.id) rows

-- `_fetch_rows_snapshot`
pub fetch_rows_snapshot : String → String → FetchArgs → List EnvRow → List EnvRow × ℕ × ℕ
unfolding next_last_seen_id
fetch_rows_snapshot manager_job_id job_id args table =
    let rows =
      list_environment_rows manager_job_id table
        (active_query job_id args.last_seen_id (some args.limit)) in
    (rows, next_last_seen_id args.last_seen_id rows, args.fallback_offset)

pub or_cached : Bool → Option Bool → Bool
or_cached cached none = cached
or_cached cached (some done) = done

-- After an empty fetch.
pub no_rows : Option Bool → Repository → Repository
unfolding update_stop_state or_cached
no_rows checker r =
    if not r.has_checker || r.db_processing_done_cached
    then update_stop_state r
    else update_stop_state
        (record r { db_processing_done_cached = or_cached r.db_processing_done_cached checker })

-- How `_fetch_rows_async` ends: `TimeoutError`, another exception, or rows.
pub data Fetched : Type 0 where
  timeout raised : Fetched
  fetched : List EnvRow → Fetched

pub take_fetched : Option Bool → List EnvRow × ℕ × ℕ → Repository → Repository × Fetched
unfolding no_rows
take_fetched checker ([], last_seen_id, offset) r = (no_rows checker r, fetched [])
take_fetched checker (row ∷ more, last_seen_id, offset) r =
    (record r { last_seen_id = last_seen_id; fallback_offset = offset }, fetched (row ∷ more))

pub await_fetch : FetchArgs → Moment → Reply → Repository → Repository × Fetched
unfolding take_fetched fetch_rows_snapshot
await_fetch args m timed_out r = (r, timeout)
await_fetch args m fetch_timed_out r = (record r { pending_fetch = none }, timeout)
await_fetch args m failed r = (record r { pending_fetch = none }, raised)
await_fetch args m (answered table) r =
    take_fetched m.checker (fetch_rows_snapshot r.manager_job_id r.job_id args table)
      (record r { pending_fetch = none })

-- `_fetch_rows_async`
pub fetch_rows_async : ℕ → Moment → Repository → Repository × Fetched
unfolding await_fetch get_or_start_fetch_task fetch_args
fetch_rows_async limit m r =
    let args = fetch_args limit r in await_fetch args m m.reply (get_or_start_fetch_task args r).0

-- `_drain_buffer_locked`
pub drain_buffer : ℕ → Repository → Repository × List EnvRow
drain_buffer limit r = (record r { row_buffer = drop limit r.row_buffer }, take limit r.row_buffer)

-- Whether the loop goes on to drain the buffer: `break`, an exception, or rows.
pub data Refill : Type 0 where
  break error ready : Refill

pub after_fetch : Repository × Fetched → Repository × Refill
after_fetch (r, timeout) = (r, break)
after_fetch (r, raised) = (r, error)
after_fetch (r, fetched []) = (r, break)
after_fetch (r, fetched (row ∷ more)) =
    (record r { row_buffer = r.row_buffer ++ (row ∷ more) }, ready)

-- `if not self._row_buffer`
pub refill : ℕ → Moment → List EnvRow → Repository → Repository × Refill
unfolding after_fetch fetch_rows_async
refill limit m [] r = after_fetch (fetch_rows_async limit m r)
refill limit m (row ∷ buffer) r = (r, ready)

pub go_on {ℓ} : {A : Type ℓ} → Refill → A → A → A → A
go_on break x y z = x
go_on error x y z = y
go_on ready x y z = z

-- The loop that reserves rows, with a moment for each of its rounds; none is an exception. Each round
-- that does not end it adds a row, so that the fuel need not be more than the rows asked for.
pub reserve_loop :
    ℕ → ℕ → ℕ → (ℕ → Moment) → List EnvRow → Repository → Repository × Option (List EnvRow)
unfolding refill drain_buffer go_on
reserve_loop zero requested batch moments reserved r = (r, some reserved)
reserve_loop (suc fuel) requested batch moments reserved r =
    let missing = requested - length reserved in
    let (r1, went) = refill (max batch missing) (moments 0) r.row_buffer r in
    let (r2, rows) = drain_buffer missing r1 in
    let rest = reserve_loop fuel requested batch (λ n. moments (n + 1)) (reserved ++ rows) r2 in
    if leb requested (length reserved) || r.stop_db_reads
    then (r, some reserved)
    else go_on went (r1, some reserved) (r1, none) rest

-- What is done under the lock, up to the update of the stop state.
pub reserve_round : ℕ → ℕ → (ℕ → Moment) → Repository → Repository × Option (List EnvRow)
unfolding reserve_loop drain_buffer
reserve_round requested batch moments r =
    let (r1, reserved) = drain_buffer requested r in
    reserve_loop requested requested batch moments reserved r1

-- The end of a round: an exception, the rows, or the next round.
pub end_round :
    Bool
    → Bool
    → Repository × Option (List EnvRow)
    → Option (Repository × Option (List EnvRow))
    → Option (Repository × Option (List EnvRow))
unfolding update_stop_state
end_round wait past (r, none) next = some (r, none)
end_round wait past (r, some reserved) next =
    let r1 = update_stop_state r in
    if not (length reserved == 0) || not wait || r1.stop_db_reads || past
    then some (r1, some reserved)
    else next

-- The rounds between which the repository sleeps; `past` says whether the deadline has passed at the
-- end of a round. Without an answer the fuel has run out.
pub reserve_rounds :
    ℕ
    → ℕ
    → ℕ
    → Bool
    → (ℕ → ℕ → Moment)
    → (ℕ → Bool)
    → Repository
    → Option (Repository × Option (List EnvRow))
unfolding reserve_round end_round update_stop_state
reserve_rounds zero requested batch wait moments past r = none
reserve_rounds (suc fuel) requested batch wait moments past r =
    let out = reserve_round requested batch (moments 0) r in
    end_round wait (past 0) out (
      reserve_rounds fuel requested batch wait (λ n. moments (n + 1)) (λ n. past (n + 1))
        (update_stop_state out.0))

pub reserve_rows :
    ℕ
    → ℕ
    → ℕ
    → Bool
    → (ℕ → ℕ → Moment)
    → (ℕ → Bool)
    → Repository
    → Option (Repository × Option (List EnvRow))
unfolding reserve_rounds
reserve_rows fuel limit fetch_batch_size wait moments past r =
    if limit == 0
    then some (r, some [])
    else reserve_rounds fuel limit (max 1 fetch_batch_size) wait moments past r

-- `prime`, which does not wait.
pub prime :
    ℕ → (ℕ → ℕ → Moment) → (ℕ → Bool) → Repository → Option (Repository × Option (List EnvRow))
unfolding reserve_rows
prime startup_batch_size moments past r =
    reserve_rows 1 startup_batch_size (max 1 startup_batch_size) false moments past r

-- `rows[0]`, or `None` without rows.
pub first_row : List EnvRow → Option EnvRow
first_row [] = none
first_row (row ∷ rows) = some row

abbrev pub option_map {ℓ κ} : {A : Type ℓ} {B : Type κ} → (A → B) → Option A → Option B
option_map f none = none
option_map f (some a) = some (f a)

pub reserve_one :
    ℕ
    → ℕ
    → Bool
    → (ℕ → ℕ → Moment)
    → (ℕ → Bool)
    → Repository
    → Option (Repository × Option (Option EnvRow))
unfolding reserve_rows first_row
reserve_one fuel fetch_batch_size wait moments past r =
    option_map (λ out. (out.0, option_map first_row out.1))
      (reserve_rows fuel 1 fetch_batch_size wait moments past r)

pub is_exhausted : Repository → Repository × Bool
unfolding update_stop_state
is_exhausted r = (update_stop_state r, (update_stop_state r).stop_db_reads)
