-- ===== src/Manager/ActorPool/Capacity.antt =====
-- The instances and the allocations under way are no more than the size of the pool.
pub mod Rounds
pub mod Bounded
use safactory.Base.{
  Option, none, some, map, string_eq, nat_eq, lookup, Bool, Dict, List, [], arith, count_if, erase,
  if◌then◌else◌, insert, is_some, keep_if, length, lookup-erase, lookup-insert, refl, ℕ, ◌+◌, ◌==◌,
  ◌∷◌, ◌≡◌, ◌≤◌, String, ◌<◌,
}
use safactory.Data.Environments.{EnvRow}
use safactory.Manager.Keys.{key_eq, Key}
use safactory.Manager.ActorPool.{
  start_reserved, ensure_round, starts, reserves, plan_refill, refill, ActorPool, PoolEntry,
  not_in_pool, allocated, begin_prewarm, begin_reset, deficit, end_reset, fill_cancelled, fill_done,
  fill_refused, init, release_entry, row_key, start_fill, start_fills, stop_scheduling, take_back,
  take_retry_rows,
}

abbrev pub has_key : Key → ℕ × Key → Bool
has_key k task = task.1 == k

-- An allocation under way for this key.
abbrev pub running : Key → ActorPool → ℕ
running k p = count_if (has_key k) p.pending

pub count-pop :
    (k : Key) (d : Dict Key PoolEntry) (tasks : List (ℕ × Key))
    → count_if (not_in_pool (erase k d)) tasks
      ≤ count_if (not_in_pool d) tasks
        + (if is_some (lookup k d) then count_if (has_key k) tasks else 0)
unfolding not_in_pool
count-pop k d [] = ground arith
count-pop k d (task ∷ tasks) = ground (
  arith,
  count-pop k d tasks,
  lookup-erase k task.1 d,
  key_eq.beq_iff k task.1,
  key_eq.beq_iff task.1 k,
)

pub count-put :
    (k : Key) (entry : PoolEntry) (d : Dict Key PoolEntry) (tasks : List (ℕ × Key))
    → count_if (not_in_pool (insert k entry d)) tasks
        + (if is_some (lookup k d) then 0 else count_if (has_key k) tasks)
      ≡ count_if (not_in_pool d) tasks
unfolding not_in_pool
count-put k entry d [] = ground arith
count-put k entry d (task ∷ tasks) = ground (
  arith,
  count-put k entry d tasks,
  lookup-insert k task.1 entry d,
  key_eq.beq_iff k task.1,
  key_eq.beq_iff task.1 k,
)

pub length-put :
    (k : Key) (entry : PoolEntry) (d : Dict Key PoolEntry)
    → length (insert k entry d) ≡ length d + (if is_some (lookup k d) then 0 else 1)
unfolding insert lookup
length-put k entry [] = refl
length-put k entry ((j, e) ∷ d) = ground (arith, length-put k entry d)

pub count-drop :
    (test keep : ℕ × Key → Bool) (tasks : List (ℕ × Key))
    → count_if test (keep_if keep tasks) ≤ count_if test tasks
count-drop test keep [] = omega arith
count-drop test keep (task ∷ tasks) = ground (arith, count-drop test keep tasks)

-- The rows that are started have no allocation under way: the table holds each environment once.
abbrev pub AllNew : (String → String) → List (ℕ × EnvRow) → ActorPool → Type 0
AllNew strip [] p = Unit
AllNew strip ((task, row) ∷ rows) p =
    (running (row_key strip row) p ≡ 0) × AllNew strip rows (start_fill strip task row p)

-- The pool, and how many rows are asked of the repository by the holder of the lock of reservations.
abbrev pub World : Type 0
World = ActorPool × Option ℕ

-- What may happen to the pool: the parts of its methods, in any order. A round of `ensure_capacity` and
-- a refill decide under the lock, start rows or ask for them, and give the lock back with the
-- repository's answer, which has no more rows than it was asked for; other parts may come in between.
-- The manager prewarms a pool that holds nothing, with no more rows than its size. An entry is
-- allocated by a task that is under way, and a reset clears the pool once its tasks have ended.
pub data Step (strip : String → String) : World → World → Type 0 where
  prewarms :
      (p : ActorPool) (h : Option ℕ) (ready : Bool) → Step strip (p, h) (begin_prewarm ready p, h)
  prewarm_starts :
      (p : ActorPool) (rows : List (ℕ × EnvRow))
      → p.pool ≡ []
      → p.pending ≡ []
      → length rows ≤ p.pool_size
      → AllNew strip rows p
      → Step strip (p, none) (start_reserved strip rows p, none)
  ensure_starts :
      (p : ActorPool) (q : ActorPool) (rows : List (ℕ × EnvRow))
      → ensure_round p ≡ (q, starts (map (λ r. r.1) rows))
      → AllNew strip rows q
      → Step strip (p, none) (start_reserved strip rows q, none)
  ensure_reserves :
      (p : ActorPool) (q : ActorPool) (n : ℕ)
      → ensure_round p ≡ (q, reserves n)
      → Step strip (p, none) (q, some n)
  refill_starts :
      (p : ActorPool) (task : ℕ) (row : EnvRow)
      → plan_refill p ≡ refill
      → (take_retry_rows 1 p).1 ≡ row ∷ []
      → AllNew strip ((task, row) ∷ []) (take_retry_rows 1 p).0
      → Step strip (p, none) (start_reserved strip ((task, row) ∷ []) (take_retry_rows 1 p).0, none)
  refill_reserves :
      (p : ActorPool)
      → plan_refill p ≡ refill
      → p.retry_rows ≡ []
      → Step strip (p, none) (p, some 1)
  reserved_starts :
      (p : ActorPool) (n : ℕ) (rows : List (ℕ × EnvRow))
      → length rows ≤ n
      → AllNew strip rows p
      → Step strip (p, some n) (start_reserved strip rows p, none)
  allocates :
      (p : ActorPool) (h : Option ℕ) (entry : PoolEntry)
      → 0 < running (entry.env_name, entry.env_id) p
      → Step strip (p, h) ((allocated entry p).0, h)
  takes_back : (p : ActorPool) (h : Option ℕ) (key : Key) → Step strip (p, h) (take_back key p, h)
  cancels :
      (p : ActorPool) (h : Option ℕ) (row : EnvRow)
      → Step strip (p, h) (fill_cancelled strip row p, h)
  refuses :
      (p : ActorPool) (h : Option ℕ) (message : String)
      → Step strip (p, h) (fill_refused message p, h)
  fill_ends : (p : ActorPool) (h : Option ℕ) (task : ℕ) → Step strip (p, h) (fill_done task p, h)
  releases :
      (p : ActorPool) (h : Option ℕ) (key : Key) (succeeded : Bool)
      → Step strip (p, h) (release_entry key succeeded p, h)
  stops : (p : ActorPool) (h : Option ℕ) → Step strip (p, h) (stop_scheduling p, h)
  resets : (p : ActorPool) (h : Option ℕ) → Step strip (p, h) (begin_reset p, h)
  ends_reset :
      (p : ActorPool) (h : Option ℕ) → p.pending ≡ [] → Step strip (p, h) ((end_reset p).0, h)

pub data Reach (strip : String → String) (pool_size : ℕ) : World → Type 0 where
  made : Reach strip pool_size (init pool_size, none)
  stepped : {v w : World} → Reach strip pool_size v → Step strip v w → Reach strip pool_size w
