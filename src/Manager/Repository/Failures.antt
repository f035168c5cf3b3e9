-- ===== src/Manager/Repository/Failures.antt =====
-- A fetch that raises an exception, and the rows that were drained before it.
use safactory.Base.{
  string_eq, nat_eq, List, Option, [], ap, arith, drop, false, if◌then◌else◌, leb, length,
  length-take, max, none, refl, some, subst, suc, sym, take, zero, ℕ, ◌++◌, ◌+◌, ◌-◌, ◌<◌, ◌||◌,
  ◌∙◌, ◌∷◌, ◌≡◌, ◌≤◌,
}
use safactory.Data.Environments.{EnvRow}
use safactory.Manager.Repository.Refills.{asked-fields}
use safactory.Manager.Repository.{
  Repository, Moment, Refill, after_fetch, await_fetch, break, drain_buffer, error, failed,
  fetch_args, fetch_rows_async, go_on, ready, refill, reserve_loop, reserve_round,
  get_or_start_fetch_task,
}

all_taken {ℓ} : {A : Type ℓ} (k : ℕ) (xs : List A) → length xs ≤ k → drop k xs ≡ []
all_taken zero [] h = refl
all_taken zero (x ∷ xs) h = absurd (omega (arith, h))
all_taken (suc k) [] h = refl
all_taken (suc k) (x ∷ xs) h = all_taken k xs (omega (arith, h))

-- The outcome of a fetch that fails: nothing is answered, and nothing is in the buffer.
abbrev Lost : Repository → Repository → Type 0
Lost r r1 = (r1.row_buffer ≡ []) × (r1.last_seen_id ≡ r.last_seen_id)

refill-failed :
    (limit : ℕ) (m : Moment) (r : Repository)
    → r.row_buffer ≡ []
    → m.reply ≡ failed
    → let q = refill limit m r.row_buffer r in (q.1 ≡ error) × Lost r q.0
unfolding refill fetch_rows_async await_fetch after_fetch get_or_start_fetch_task
refill-failed limit m r empty reply =
    let asked = (get_or_start_fetch_task (fetch_args limit r) r).0 in
    let kept : Lost r (record asked { pending_fetch = none }) =
      subst (λ (x : Repository). Lost r (record x { pending_fetch = none }))
        (sym (asked-fields (fetch_args limit r) r)) (empty, refl) in
    subst (λ b. (let q = refill limit m b r in (q.1 ≡ error) × Lost r q.0)) (sym empty)
      (subst
        (λ x.
          (let q = after_fetch (await_fetch (fetch_args limit r) m x asked) in
            (q.1 ≡ error) × Lost r q.0))
        (sym reply) (refl, kept))

go_on-error {ℓ} : {A : Type ℓ} (went : Refill) (x y z : A) → went ≡ error → go_on went x y z ≡ y
unfolding go_on
go_on-error break x y z e = absurd (cc e)
go_on-error error x y z e = refl
go_on-error ready x y z e = absurd (cc e)

loop_failed :
    (fuel requested batch : ℕ) (moments : ℕ → Moment) (reserved : List EnvRow) (r : Repository)
    → length reserved < requested
    → r.row_buffer ≡ []
    → r.stop_db_reads ≡ false
    → (moments 0).reply ≡ failed
    → let out = reserve_loop (suc fuel) requested batch moments reserved r in
      (out.1 ≡ none) × Lost r out.0
unfolding reserve_loop
loop_failed fuel requested batch moments reserved r fewer empty going reply =
    let k = requested - length reserved in
    let q = refill (max batch k) (moments 0) r.row_buffer r in
    let failure = refill-failed (max batch k) (moments 0) r empty reply in
    let (r2, more) = drain_buffer k q.0 in
    let rest = reserve_loop fuel requested batch (λ n. moments (n + 1)) (reserved ++ more) r2 in
    let continues : (leb requested (length reserved) || r.stop_db_reads) ≡ false = ground arith in
    let out : reserve_loop (suc fuel) requested batch moments reserved r ≡ (q.0, none) =
      ap (λ b. if b then (r, some reserved) else go_on q.1 (q.0, some reserved) (q.0, none) rest)
        continues
      ∙ go_on-error q.1 (q.0, some reserved) (q.0, none) rest failure.0 in
    subst (λ (o : Repository × Option (List EnvRow)). (o.1 ≡ none) × Lost r o.0) (sym out)
      (refl, failure.1)

-- When the first fetch of a round raises an exception other than a timeout, and the buffer held some
-- rows but fewer than asked for, the call ends in the exception with the buffer empty and the cursor
-- where it was: the rows of the buffer, which are before the cursor, are neither answered nor kept.
pub failed_fetch_lem :
    (requested batch : ℕ) (moments : ℕ → Moment) (r : Repository)
    → length r.row_buffer < requested
    → r.stop_db_reads ≡ false
    → (moments 0).reply ≡ failed
    → let out = reserve_round requested batch moments r in
      (out.1 ≡ none) × (out.0.row_buffer ≡ []) × (out.0.last_seen_id ≡ r.last_seen_id)
unfolding reserve_round drain_buffer
failed_fetch_lem zero batch moments r fewer going reply = absurd (omega (arith, fewer))
failed_fetch_lem (suc n) batch moments r fewer going reply =
    let r1 = record r { row_buffer = drop (suc n) r.row_buffer } in
    let rows = take (suc n) r.row_buffer in
    let lost =
      loop_failed n (suc n) batch moments rows r1
        (omega (arith, length-take (suc n) r.row_buffer, fewer))
        (all_taken (suc n) r.row_buffer (omega (arith, fewer))) going reply in
    (lost.0, lost.1.0, lost.1.1)
