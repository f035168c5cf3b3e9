-- ===== src/Manager/ActorPool/Capacity/Rounds.antt =====
-- What a round of `ensure_capacity` and a refill start or ask for is within the deficit.
use safactory.Base.{
  take, drop, length-take, leb, if◌then◌else◌, string_eq, nat_eq, Bool, List, Option, String, [],
  arith, if_elim, length, none, some, ℕ, ◌+◌, ◌==◌, ◌∷◌, ◌≡◌, ◌≤◌, false, refl, true,
}
use safactory.Manager.Keys.{key_eq}
use safactory.Data.Environments.{EnvRow}
use safactory.Manager.ActorPool.{
  Ensure, returns, awaits, starts, reserves, ensure_round, unless_refused, started_or_reserved,
  plan_refill, refill, unless_error, ActorPool, busy, deficit, take_retry_rows,
}

-- A pool that differs in its rows to be tried again alone.

abbrev pub Same : ActorPool → ActorPool → Type 0
Same p q = q ≡ record p { retry_rows = q.retry_rows }

-- What a round asks for or starts is within the deficit.
abbrev pub Fits : ActorPool → ActorPool × Ensure → Type 0
Fits p (q, reserves n) = (n ≤ deficit p) × Same p q
Fits p (q, starts rows) = (length rows ≤ deficit p) × Same p q
Fits p (q, _) = Unit {0}

length-take_le : {A : Type 0} (n : ℕ) (xs : List A) → length (take n xs) ≤ n
length-take_le n xs = omega (arith, length-take n xs)

taken-Fits :
    (p q : ActorPool) (rows : List EnvRow)
    → length rows ≤ deficit p
    → Same p q
    → Fits p (started_or_reserved (deficit p) (q, rows))
unfolding started_or_reserved
taken-Fits p q [] fits same = (omega arith, same)
taken-Fits p q (row ∷ rows) fits same = (fits, same)

refused-Fits : (p : ActorPool) (e : Option String) → Fits p (unless_refused e p)
unfolding unless_refused take_retry_rows
refused-Fits p (some e) = tt
refused-Fits p none = if_elim (Fits p) (deficit p == 0) _ _ (waits (length p.pending == 0)) (
    taken-Fits p (record p { retry_rows = drop (deficit p) p.retry_rows })
      (take (deficit p) p.retry_rows) (length-take_le (deficit p) p.retry_rows) refl)
  where
    waits : (b : Bool) → Fits p (p, if b then returns else awaits)
    waits true = tt
    waits false = tt

pub ensure-Fits : (p : ActorPool) → Fits p (ensure_round p)
unfolding ensure_round
ensure-Fits p = if_elim (Fits p) p.closing _ _ tt (refused-Fits p p.allocation_error)

pub refill_fits : (p : ActorPool) → plan_refill p ≡ refill → busy p + 1 ≤ p.pool_size
unfolding plan_refill
refill_fits p h = by_error p.allocation_error (ground arith)
  where
    by_error :
        (e : Option String)
        → unless_error e (leb p.pool_size (busy p)) ≡ refill
        → busy p + 1 ≤ p.pool_size
    by_error none g = ground (arith, g)
    by_error (some e) g = absurd (cc g)
