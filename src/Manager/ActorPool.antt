-- ===== src/Manager/ActorPool.antt =====
-- manager/actor_pool.py: the pool of allocated instances, the allocations under way, and the rows that
-- are tried again. A method is cut where it awaits: what the repository and the allocator answer is an
-- argument of the part that follows. The semaphore only delays a part.
pub mod Capacity
pub mod Retries
pub mod Examples
use safactory.Base.{
  string_eq, nat_eq, lookup, Bool, Dict, List, Option, String, [], count_if, drop, erase, false,
  if◌then◌else◌, insert, is_some, keep_if, leb, length, map, none, not, some, take, true, ℕ, ◌&&◌,
  ◌++◌, ◌+◌, ◌-◌, ◌==◌, ◌||◌, ◌∷◌, or_zero,
}
use safactory.Manager.Keys.{key_eq, Key}
use safactory.Manager.Repository.Images.{or_blank}
use safactory.Data.Environments.{EnvRow}

-- `PoolEntry`, by the resource that was allocated.
pub record PoolEntry : Type 0 where
  pub env_name : String
  pub env_id : String
  pub resource_id : ℕ

-- The tasks that are not done, with the keys of their rows; the background releases with what they
-- release, and whether the episode succeeded.
pub record ActorPool : Type 0 where
  pub pool_size : ℕ
  pub pool : Dict Key PoolEntry
  pub pending : List (ℕ × Key)
  pub retry_rows : List EnvRow
  pub cancel_attempts : Dict Key ℕ
  pub has_on_ready : Bool
  pub closing : Bool
  pub image_by_env : Dict String String
  pub background_tasks : List (PoolEntry × Bool)
  pub allocation_error : Option String

abbrev pub init : ℕ → ActorPool
init pool_size = record {
  pool_size = pool_size;
  pool = [];
  pending = [];
  retry_rows = [];
  cancel_attempts = [];
  has_on_ready = false;
  closing = false;
  image_by_env = [];
  background_tasks = [];
  allocation_error = none;
}

pub stop_scheduling : ActorPool → ActorPool
stop_scheduling p = record p { closing = true }

-- `reset`, up to the cancellation of the allocations.
pub begin_reset : ActorPool → ActorPool
begin_reset p = record p { closing = true }

-- Then the entries that the allocator removes.
pub end_reset : ActorPool → ActorPool × List PoolEntry
end_reset p = (record p { pool = []; retry_rows = []; cancel_attempts = [] }, map (λ e. e.1) p.pool)

pub has_pending_work : ActorPool → Bool
has_pending_work p = not (length p.retry_rows == 0) || not (length p.pending == 0)

pub not_in_pool : Dict Key PoolEntry → ℕ × Key → Bool
not_in_pool pool task = not (is_some (lookup task.1 pool))

-- `len(self._pool) + pending`
pub busy : ActorPool → ℕ
unfolding not_in_pool
busy p = length p.pool + count_if (not_in_pool p.pool) p.pending

pub deficit : ActorPool → ℕ
unfolding busy
deficit p = p.pool_size - busy p

-- `row.get("image") or self._image_by_env.get(env_name) or ""`
pub first_text : Option String → Option String → String
unfolding or_blank
first_text none other = or_blank other
first_text (some text) other = if text == "" then or_blank other else text

-- The key of a row, whose names Python strips.
module _ (strip : String → String) where
  pub row_key : EnvRow → Key
  row_key row = (strip row.env_name, strip row.env_id)

  -- `_start_fill`
  pub start_fill : ℕ → EnvRow → ActorPool → ActorPool
  unfolding row_key
  start_fill task row p = record p { pending = p.pending ++ ((task, row_key row) ∷ []) }

  pub start_fills : List (ℕ × EnvRow) → ActorPool → ActorPool
  unfolding start_fill
  start_fills [] p = p
  start_fills ((task, row) ∷ rows) p = start_fills rows (start_fill task row p)

  -- What is started once the repository has answered, under the lock that was held all the while.
  pub start_reserved : List (ℕ × EnvRow) → ActorPool → ActorPool
  unfolding start_fills
  start_reserved rows p = if p.closing then p else start_fills rows p

  -- The handler of a cancelled allocation, which raises the cancellation again.
  pub fill_cancelled : EnvRow → ActorPool → ActorPool
  unfolding row_key
  fill_cancelled row p =
      let attempts = or_zero (lookup (row_key row) p.cancel_attempts) + 1 in
      let p1 = record p { cancel_attempts = insert (row_key row) attempts p.cancel_attempts } in
      if not p.closing && not (is_some p.allocation_error) && leb attempts 2
      then record p1 { retry_rows = row ∷ p.retry_rows }
      else p1

  -- `_resolve_image`
  pub resolve_image : EnvRow → ActorPool → String
  unfolding first_text
  resolve_image row p = strip (first_text row.image (lookup (strip row.env_name) p.image_by_env))

  -- Whether a row may be allocated.
  pub is_valid_row : EnvRow → ActorPool → Bool
  unfolding resolve_image
  is_valid_row row p =
      not (strip row.env_name == "")
      && not (strip row.env_id == "")
      && not (resolve_image row p == "")

-- The retry rows that a pool takes first, up to so many.
pub take_retry_rows : ℕ → ActorPool → ActorPool × List EnvRow
take_retry_rows n p = (record p { retry_rows = drop n p.retry_rows }, take n p.retry_rows)

-- `prewarm`, up to the reservation of rows.
pub begin_prewarm : Bool → ActorPool → ActorPool
begin_prewarm has_on_ready p = record p {
  closing = false;
  allocation_error = none;
  has_on_ready = has_on_ready;
}

-- What a round of `ensure_capacity` does: it returns, raises the error of an allocation, awaits the
-- allocations under way, starts rows that are tried again, or reserves rows and starts those.
pub data Ensure : Type 0 where
  returns awaits : Ensure
  raises : String → Ensure
  starts : List EnvRow → Ensure
  reserves : ℕ → Ensure

pub started_or_reserved : ℕ → ActorPool × List EnvRow → ActorPool × Ensure
started_or_reserved n (p, []) = (p, reserves n)
started_or_reserved n (p, row ∷ rows) = (p, starts (row ∷ rows))

pub unless_refused : Option String → ActorPool → ActorPool × Ensure
unfolding started_or_reserved take_retry_rows deficit busy
unless_refused (some e) p = (p, raises e)
unless_refused none p =
    if deficit p == 0
    then (p, if length p.pending == 0 then returns else awaits)
    else started_or_reserved (deficit p) (take_retry_rows (deficit p) p)

pub ensure_round : ActorPool → ActorPool × Ensure
unfolding unless_refused
ensure_round p = if p.closing then (p, returns) else unless_refused p.allocation_error p

-- The entry that the allocator answers goes into the pool, unless the pool is closing: then it is to
-- be removed.
pub allocated : PoolEntry → ActorPool → ActorPool × Bool
allocated entry p =
    if p.closing
    then (p, false)
    else (record p { pool = insert (entry.env_name, entry.env_id) entry p.pool }, true)

-- The entry is taken back after a failure or a cancellation.
pub take_back : Key → ActorPool → ActorPool
take_back key p = record p { pool = erase key p.pool }

-- The done callback of an allocation.
pub fill_done : ℕ → ActorPool → ActorPool
fill_done task p = record p { pending = keep_if (λ t. not (t.0 == task)) p.pending }

-- `except RuntimeConfigurationError`: the first error is kept.
pub fill_refused : String → ActorPool → ActorPool
fill_refused error p =
    if p.closing || is_some p.allocation_error
    then p
    else record p { allocation_error = some error }

-- `close_and_refill`, the release of the old entry.
pub schedule_release : Option PoolEntry → Bool → ActorPool → ActorPool
schedule_release none succeeded p = p
schedule_release (some entry) succeeded p = record p {
  background_tasks = (entry, succeeded) ∷ p.background_tasks;
}

pub release_entry : Key → Bool → ActorPool → ActorPool
unfolding schedule_release
release_entry key succeeded p =
    schedule_release (lookup key p.pool) succeeded (record p { pool = erase key p.pool })

-- What the rest of `close_and_refill` is to do.
pub data Refill : Type 0 where
  no_refill : Refill
  error : String → Refill
  refill : Refill

pub unless_error : Option String → Bool → Refill
unless_error none full = if full then no_refill else refill
unless_error (some e) full = error e

pub plan_refill : ActorPool → Refill
unfolding unless_error busy
plan_refill p =
    if p.closing then no_refill else unless_error p.allocation_error (leb p.pool_size (busy p))
