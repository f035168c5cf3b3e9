-- ===== src/Manager/Repository/Reserving.antt =====
-- What the repository hands out of a table that does not change, and that it comes back.
use safactory.Base.{
  string_eq, nat_eq, Bool, IsAbove, List, Option, [], ap, arith, drop, false, if◌then◌else◌, length,
  length-take, none, not, refl, some, some_injective, subst, suc, sym, take, true, zero, ℕ, ◌+◌,
  ◌<◌, ◌==◌, ◌||◌, ◌∙◌, ◌∷◌, ◌≡◌, ◌⊎◌, inl, inr, max,
}
use safactory.Data.Environments.{EnvRow}
use safactory.Manager.Repository.{
  Repository, Moment, drain_buffer, end_round, reserve_loop, reserve_round, reserve_rounds,
  update_stop_state, reserve_rows,
}
use safactory.Manager.Repository.Queue.{row_id, IsSound, pending}
use safactory.Manager.Repository.Refills.{Answers, update_stop-IsSound, update_stop-pending}
use safactory.Manager.Repository.Rounds.{Reserves, drained, reserve_loop_lem}

drop_nil {ℓ} : {A : Type ℓ} (k : ℕ) → drop {A = A} k [] ≡ []
drop_nil zero = refl
drop_nil (suc k) = refl

drained-IsSound :
    (table : List EnvRow) (k : ℕ) (r : Repository)
    → IsSound table r
    → IsSound table (record r { row_buffer = drop k r.row_buffer })
drained-IsSound table k r s =
    (s.0, λ h. (ap (λ (xs : List EnvRow). drop k xs) (s.1 h).0 ∙ drop_nil k, (s.1 h).1))

-- One round reserves the first of the pending rows.
round_lem :
    (table : List EnvRow) (requested batch : ℕ) (moments : ℕ → Moment) (r : Repository)
    → IsAbove row_id 0 table
    → 0 < batch
    → ((n : ℕ) → Answers table (moments n))
    → IsSound table r
    → Reserves table requested [] (pending table r) (reserve_round requested batch moments r)
unfolding reserve_round drain_buffer
round_lem table requested batch moments r a positive answers s =
    let rows = take requested r.row_buffer in
    let r1 = record r { row_buffer = drop requested r.row_buffer } in
    drained table requested [] r (reserve_loop requested requested batch moments rows r1) (
      reserve_loop_lem table requested requested batch moments rows r1 a positive answers
        (omega arith) (drained-IsSound table requested r s))

-- What the call as a whole answers.
abbrev pub Reserved :
    List EnvRow → ℕ → List EnvRow → Option (Repository × Option (List EnvRow)) → Type 0
Reserved table limit rows answer =
    (r1 : Repository) × (answer ≡ some (r1, some (take limit rows)))
    × (pending table r1 ≡ drop limit rows)
    × IsSound table r1

-- A round ends the call, or leaves the next one nothing either.
end_round_lem :
    (table : List EnvRow) (limit : ℕ) (wait past : Bool) (rows : List EnvRow)
    (out : Repository × Option (List EnvRow)) (next : Option (Repository × Option (List EnvRow)))
    → 0 < limit
    → Reserves table limit [] rows out
    → ((past ≡ false) → (wait ≡ true) → rows ≡ [] → Reserved table limit rows next)
    → Reserved table limit rows (end_round wait past out next)
unfolding end_round
end_round_lem table limit wait past rows (r, none) next positive h again = absurd (cc h.0)
end_round_lem table limit wait past rows (r, some reserved) next positive h again =
    let same : reserved ≡ take limit rows = some_injective h.0 in
    let r1 = update_stop_state r in
    by_end (not (length reserved == 0) || not wait || r1.stop_db_reads || past) refl
  where
    ended : Reserved table limit rows (some (update_stop_state r, some reserved))
    ended = (
      update_stop_state r,
      ap (λ xs. some (update_stop_state r, some xs)) (some_injective h.0),
      update_stop-pending table r ∙ h.1,
      update_stop-IsSound table r h.2,
    )

    by_end :
        (done : Bool)
        → (not (length reserved == 0) || not wait || (update_stop_state r).stop_db_reads || past)
          ≡ done
        → Reserved table limit rows
            (if done then some (update_stop_state r, some reserved) else next)
    by_end true e = ended
    by_end false e =
        again (ground arith) (ground arith) (nothing rows (some_injective h.0) (ground (arith, e)))
      where
        nothing : (xs : List EnvRow) → reserved ≡ take limit xs → length reserved ≡ 0 → xs ≡ []
        nothing [] e1 e2 = refl
        nothing (x ∷ xs) e1 e2 = absurd (
            omega (
              arith,
              positive,
              e2,
              ap (λ (ys : List EnvRow). length ys) e1,
              length-take limit (x ∷ xs),
            ))

later :
    (fuel : ℕ) (wait : Bool) (past : ℕ → Bool)
    → (i : ℕ) × (i < suc fuel) × ((past i ≡ true) ⊎ (wait ≡ false))
    → past 0 ≡ false
    → wait ≡ true
    → (i : ℕ) × (i < fuel) × ((past (i + 1) ≡ true) ⊎ (wait ≡ false))
later fuel wait past (i, h, inr e) going waits = absurd (cc (e, waits))
later fuel wait past (zero, h, inl e) going waits = absurd (cc (e, going))
later fuel wait past (suc i, h, inl e) going waits =
    let next : i + 1 ≡ suc i = omega arith in (i, omega (arith, h), inl (ap past next ∙ e))

reserve_rounds_lem :
    (table : List EnvRow) (fuel limit batch : ℕ) (wait : Bool) (moments : ℕ → ℕ → Moment)
    (past : ℕ → Bool) (r : Repository)
    → IsAbove row_id 0 table
    → 0 < limit
    → 0 < batch
    → ((i n : ℕ) → Answers table (moments i n))
    → (i : ℕ) × (i < fuel) × ((past i ≡ true) ⊎ (wait ≡ false))
    → IsSound table r
    → Reserved table limit (pending table r) (reserve_rounds fuel limit batch wait moments past r)
unfolding reserve_rounds
reserve_rounds_lem table zero limit batch wait moments past r a positive batched answers ends s =
    absurd (omega (arith, ends.1))
reserve_rounds_lem table (suc fuel) limit batch wait moments past r a positive batched answers ends
      s =
    let out = reserve_round limit batch (moments 0) r in
    let one = round_lem table limit batch (moments 0) r a batched (answers 0) s in
    let r1 = update_stop_state out.0 in
    end_round_lem table limit wait (past 0) (pending table r) out
      (reserve_rounds fuel limit batch wait (λ n. moments (n + 1)) (λ n. past (n + 1)) r1) positive
      one
      (λ going waits empty.
        let left : pending table r1 ≡ pending table r =
          update_stop-pending table out.0
          ∙ one.1
          ∙ ap (λ (xs : List EnvRow). drop limit xs) empty
          ∙ drop_nil limit
          ∙ sym empty in
        subst
          (λ xs.
            Reserved table limit xs
              (reserve_rounds fuel limit batch wait (λ n. moments (n + 1)) (λ n. past (n + 1)) r1))
          left
          (reserve_rounds_lem table fuel limit batch wait (λ n. moments (n + 1)) (λ n. past (n + 1))
            r1 a positive batched (λ i n. answers (i + 1) n) (later fuel wait past ends going waits)
            (update_stop-IsSound table out.0 one.2)))

-- On a table in the order of its ids that does not change, where every fetch answers, a call that
-- does not wait, or whose deadline passes within the rounds of its fuel, comes back: it reserves the
-- first rows of those that are active, of the repository's job and not reserved yet, in the order of
-- their ids and as many as asked for, and leaves those after them. No row is reserved twice, and
-- none is passed over.
pub reserve_rows_lem :
    (table : List EnvRow) (fuel limit size : ℕ) (wait : Bool) (moments : ℕ → ℕ → Moment)
    (past : ℕ → Bool) (r : Repository)
    → IsAbove row_id 0 table
    → ((i n : ℕ) → Answers table (moments i n))
    → (i : ℕ) × (i < fuel) × ((past i ≡ true) ⊎ (wait ≡ false))
    → IsSound table r
    → Reserved table limit (pending table r) (reserve_rows fuel limit size wait moments past r)
unfolding reserve_rows
reserve_rows_lem table fuel zero size wait moments past r a answers ends s = (r, refl, refl, s)
reserve_rows_lem table fuel (suc limit) size wait moments past r a answers ends s =
    let positive : (suc limit == 0) ≡ false = ground arith in
    subst
      (λ b. Reserved table (suc limit) (pending table r) (
        if b
        then some (r, some [])
        else reserve_rounds fuel (suc limit) (max 1 size) wait moments past r))
      (sym positive)
      (reserve_rounds_lem table fuel (suc limit) (max 1 size) wait moments past r a (omega arith)
        (omega arith) answers ends s)
