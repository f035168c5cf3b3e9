-- ===== src/Manager/ActorPool/Capacity/Bounded.antt =====
-- Every step keeps the pool within its size.
use safactory.Base.{
  or_zero, map, ap, string_eq, nat_eq, lookup, Bool, IsUnique, List, Option, String, [], arith,
  count_if, count_if-append, erase, erase-IsUnique, if_elim, insert-IsUnique, is_some, length,
  length-erase, none, not, some, subst, sym, ℕ, ◌+◌, ◌<◌, ◌==◌, ◌||◌, ◌∷◌, ◌≡◌, ◌≤◌, refl,
}
use safactory.Manager.Keys.{key_eq, Key}
use safactory.Data.Environments.{EnvRow}
use safactory.Manager.ActorPool.{
  starts, reserves, ensure_round, start_reserved, ActorPool, PoolEntry, allocated, begin_prewarm,
  begin_reset, busy, deficit, end_reset, fill_cancelled, fill_done, fill_refused, not_in_pool,
  release_entry, row_key, schedule_release, start_fill, start_fills, stop_scheduling, take_back,
  take_retry_rows,
}
use safactory.Manager.ActorPool.Capacity.{
  World, prewarm_starts, ensure_starts, ensure_reserves, refill_starts, refill_reserves,
  reserved_starts, Reach, AllNew, Step, allocates, cancels, count-drop, count-pop, count-put,
  ends_reset, fill_ends, has_key, length-put, made, prewarms, refuses, releases, resets, running,
  stepped, stops, takes_back,
}
use safactory.Manager.ActorPool.Capacity.Rounds.{Fits, ensure-Fits, refill_fits}

-- The instances and the allocations under way, with so many more, are within the size, and no key has
-- two allocations.

abbrev pub IsRoomy : ℕ → ActorPool → Type 0
IsRoomy n p = (busy p + n ≤ p.pool_size) × IsUnique p.pool × ((k : Key) → running k p ≤ 1)

module _ (strip : String → String) where
  start_fill-busy :
      (task : ℕ) (row : EnvRow) (p : ActorPool) → busy (start_fill strip task row p) ≤ busy p + 1
  unfolding busy start_fill
  start_fill-busy task row p =
      ground
        (arith, count_if-append (not_in_pool p.pool) p.pending ((task, row_key strip row) ∷ []))

  start_fill-running :
      (task : ℕ) (row : EnvRow) (p : ActorPool)
      → running (row_key strip row) p ≡ 0
      → ((k : Key) → running k p ≤ 1)
      → (k : Key) → running k (start_fill strip task row p) ≤ 1
  unfolding start_fill
  start_fill-running task row p new once k = ground (
    arith,
    once k,
    count_if-append (has_key k) p.pending ((task, row_key strip row) ∷ []),
    key_eq.beq_iff (row_key strip row) k,
    new,
  )

  start_fills-IsRoomy :
      (rows : List (ℕ × EnvRow)) (p : ActorPool)
      → busy p + length rows ≤ p.pool_size
      → AllNew strip rows p
      → IsRoomy 0 p
      → IsRoomy 0 (start_fills strip rows p)
  unfolding start_fills start_fill
  start_fills-IsRoomy [] p fits new r = r
  start_fills-IsRoomy ((task, row) ∷ rows) p fits new r =
      let more = start_fill-busy task row p in
      start_fills-IsRoomy rows (start_fill strip task row p) (omega (arith, more, fits)) new.1
        (omega (arith, more, fits), r.1, start_fill-running task row p new.0 r.2)

allocated-IsRoomy :
    (n : ℕ) (entry : PoolEntry) (p : ActorPool)
    → 0 < running (entry.env_name, entry.env_id) p
    → IsRoomy n p
    → IsRoomy n (allocated entry p).0
unfolding allocated busy
allocated-IsRoomy n entry p under_way r =
    let key : Key = (entry.env_name, entry.env_id) in
    if_elim (λ (q : ActorPool × Bool). IsRoomy n q.0) p.closing _ _ r
      (
        ground (
          arith,
          r.0,
          under_way,
          count-put key entry p.pool p.pending,
          length-put key entry p.pool,
        ),
        insert-IsUnique key entry p.pool r.1,
        r.2,
      )

erased-IsRoomy :
    (n : ℕ) (k : Key) (p : ActorPool) → IsRoomy n p → IsRoomy n (record p { pool = erase k p.pool })
unfolding busy
erased-IsRoomy n k p r = (
  ground (arith, r.0, r.2 k, count-pop k p.pool p.pending, length-erase k p.pool r.1),
  erase-IsUnique k p.pool r.1,
  r.2,
)

release-IsRoomy :
    (n : ℕ) (o : Option PoolEntry) (succeeded : Bool) (p : ActorPool)
    → IsRoomy n p
    → IsRoomy n (schedule_release o succeeded p)
unfolding schedule_release busy
release-IsRoomy n none succeeded p r = r
release-IsRoomy n (some entry) succeeded p r = r

done-IsRoomy : (n : ℕ) (task : ℕ) (p : ActorPool) → IsRoomy n p → IsRoomy n (fill_done task p)
unfolding fill_done busy
done-IsRoomy n task p r =
    let keep = λ (t : ℕ × Key). not (t.0 == task) in
    (
      omega (arith, r.0, count-drop (not_in_pool p.pool) keep p.pending),
      r.1,
      λ k. omega (arith, r.2 k, count-drop (has_key k) keep p.pending),
    )

length-rows : (rows : List (ℕ × EnvRow)) → length (map (λ t. t.1) rows) ≡ length rows
length-rows [] = refl
length-rows (row ∷ rows) = omega (arith, length-rows rows)

started-IsRoomy :
    (strip : String → String) (rows : List (ℕ × EnvRow)) (n : ℕ) (p : ActorPool)
    → length rows ≤ n
    → AllNew strip rows p
    → IsRoomy n p
    → IsRoomy 0 (start_reserved strip rows p)
unfolding start_reserved
started-IsRoomy strip rows n p fits new r =
    let fewer : IsRoomy 0 p = (omega (arith, r.0), r.1, r.2) in
    if_elim (IsRoomy 0) p.closing _ _ fewer
      (start_fills-IsRoomy strip rows p (omega (arith, r.0, fits)) new fewer)

-- A pool with other rows to be tried again.
same-IsRoomy :
    (n : ℕ) (p : ActorPool) (rows : List EnvRow)
    → IsRoomy n p
    → IsRoomy n (record p { retry_rows = rows })
unfolding busy
same-IsRoomy n p rows r = r

ensure_starts-IsRoomy :
    (p q : ActorPool) (rows : List EnvRow)
    → ensure_round p ≡ (q, starts rows)
    → IsRoomy 0 p
    → IsRoomy (length rows) q
unfolding deficit
ensure_starts-IsRoomy p q rows e r =
    let (fits, same) = subst (Fits p) e (ensure-Fits p) in
    subst (IsRoomy (length rows)) (sym same)
      (same-IsRoomy (length rows) p q.retry_rows (omega (arith, r.0, fits), r.1, r.2))

ensure_reserves-IsRoomy :
    (p q : ActorPool) (n : ℕ) → ensure_round p ≡ (q, reserves n) → IsRoomy 0 p → IsRoomy n q
unfolding deficit
ensure_reserves-IsRoomy p q n e r =
    let (fits, same) = subst (Fits p) e (ensure-Fits p) in
    subst (IsRoomy n) (sym same)
      (same-IsRoomy n p q.retry_rows (omega (arith, r.0, fits), r.1, r.2))

Step-IsRoomy :
    {strip : String → String} {v w : World}
    → Step strip v w
    → IsRoomy (or_zero v.1) v.0
    → IsRoomy (or_zero w.1) w.0
unfolding begin_prewarm take_back fill_cancelled fill_refused release_entry stop_scheduling
    begin_reset end_reset busy take_retry_rows
Step-IsRoomy (prewarms p h ready) r = r
Step-IsRoomy {strip} (prewarm_starts p rows empty idle fits new) r =
    let none_held : length p.pool ≡ 0 = ap length empty in
    let none_busy : count_if (not_in_pool p.pool) p.pending ≡ 0 =
      ap (count_if (not_in_pool p.pool)) idle in
    started-IsRoomy strip rows p.pool_size p fits new
      (omega (arith, none_held, none_busy), r.1, r.2)
Step-IsRoomy {strip} (ensure_starts p q rows e new) r =
    started-IsRoomy strip rows (length (map (λ t. t.1) rows)) q (omega (arith, length-rows rows))
      new (ensure_starts-IsRoomy p q (map (λ t. t.1) rows) e r)
Step-IsRoomy (ensure_reserves p q n e) r = ensure_reserves-IsRoomy p q n e r
Step-IsRoomy {strip} (refill_starts p task row e taken new) r =
    started-IsRoomy strip ((task, row) ∷ []) 1 (take_retry_rows 1 p).0 (omega arith) new
      (refill_fits p e, r.1, r.2)
Step-IsRoomy (refill_reserves p e nothing) r = (refill_fits p e, r.1, r.2)
Step-IsRoomy {strip} (reserved_starts p n rows fits new) r =
    started-IsRoomy strip rows n p fits new r
Step-IsRoomy (allocates p h entry under_way) r = allocated-IsRoomy (or_zero h) entry p under_way r
Step-IsRoomy (takes_back p h key) r = erased-IsRoomy (or_zero h) key p r
Step-IsRoomy (cancels p h row) r = if_elim (IsRoomy (or_zero h)) _ _ _ r r
Step-IsRoomy (refuses p h message) r =
    if_elim (IsRoomy (or_zero h)) (p.closing || is_some p.allocation_error) _ _ r r
Step-IsRoomy (fill_ends p h task) r = done-IsRoomy (or_zero h) task p r
Step-IsRoomy (releases p h key succeeded) r =
    release-IsRoomy (or_zero h) (lookup key p.pool) succeeded (record p { pool = erase key p.pool })
      (erased-IsRoomy (or_zero h) key p r)
Step-IsRoomy (stops p h) r = r
Step-IsRoomy (resets p h) r = r
Step-IsRoomy (ends_reset p h over) r = (
  subst (λ ts. 0 + count_if (not_in_pool []) ts + or_zero h ≤ p.pool_size) (sym over)
      (omega (arith, r.0)),
  tt,
  r.2,
)

-- In every state that is reached from an empty pool, where the repository answers with no more rows
-- than it is asked for, no row is started while an allocation of its environment is under way, and the
-- pool is prewarmed while it holds nothing: the instances in the pool, the allocations under way for
-- other keys, and the rows that the holder of the lock has asked the repository for are together no
-- more than the size of the pool, no key stands twice in the pool, and no key has two allocations
-- under way.
pub Reach-IsRoomy :
    {strip : String → String} {pool_size : ℕ} {w : World}
    → Reach strip pool_size w
    → IsRoomy (or_zero w.1) w.0
unfolding busy
Reach-IsRoomy made = (omega arith, tt, λ k. omega arith)
Reach-IsRoomy (stepped reached step) = Step-IsRoomy step (Reach-IsRoomy reached)
