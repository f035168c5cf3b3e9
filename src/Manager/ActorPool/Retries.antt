-- ===== src/Manager/ActorPool/Retries.antt =====
-- How often a row whose allocation is cancelled is tried again.
use safactory.Base.{
  string_eq, nat_eq, lookup, Bool, List, String, [], arith, false, if_elim, if◌then◌else◌, insert,
  is_some, leb, lookup-insert, not, refl, true, ℕ, ◌&&◌, ◌+◌, ◌==◌, ◌∷◌, ◌≡◌, Bool-cases, ap,
  count_if, inl, inr, min, none, sym, ◌∙◌, or_zero,
}
use safactory.Manager.Keys.{key_eq, Key}
use safactory.Data.Environments.{EnvRow}
use safactory.Manager.ActorPool.{ActorPool, fill_cancelled, row_key}

-- A pool that is not closing and has no allocation error.

abbrev pub is_open : ActorPool → Bool
is_open p = not p.closing && not (is_some p.allocation_error)

and_true : (b : Bool) → (b && true) ≡ b
and_true true = refl
and_true false = refl

module _ (strip : String → String) where
  -- Cancellations one after the other.
  pub cancel_all : List EnvRow → ActorPool → ActorPool
  unfolding fill_cancelled
  cancel_all [] p = p
  cancel_all (row ∷ rows) p = cancel_all rows (fill_cancelled strip row p)

  abbrev pub attempts : Key → ActorPool → ℕ
  attempts k p = or_zero (lookup k p.cancel_attempts)

  abbrev pub has_row_key : Key → EnvRow → Bool
  has_row_key k row = row_key strip row == k

  -- How many of the rows that are to be tried again are of this key.
  abbrev pub waiting : Key → ActorPool → ℕ
  waiting k p = count_if (has_row_key k) p.retry_rows

  cancel-attempts :
      (k : Key) (row : EnvRow) (p : ActorPool)
      → attempts k (fill_cancelled strip row p)
        ≡ attempts k p + (if row_key strip row == k then 1 else 0)
  unfolding fill_cancelled
  cancel-attempts k row p =
      let n = or_zero (lookup (row_key strip row) p.cancel_attempts) + 1 in
      if_elim
        (λ (q : ActorPool). attempts k q ≡ attempts k p + (if row_key strip row == k then 1 else 0))
        (not p.closing && not (is_some p.allocation_error) && leb n 2) _ _ (counted k row p)
        (counted k row p)
    where
      counted :
          (k : Key) (row : EnvRow) (p : ActorPool)
          → or_zero (
              lookup k (
                insert
                  (row_key strip row)
                  (or_zero (lookup (row_key strip row) p.cancel_attempts) + 1)
                  p.cancel_attempts))
            ≡ attempts k p + (if row_key strip row == k then 1 else 0)
      counted k row p = ground (
        arith,
        lookup-insert (row_key strip row) k
            (or_zero (lookup (row_key strip row) p.cancel_attempts) + 1) p.cancel_attempts,
        key_eq.beq_iff (row_key strip row) k,
      )

  cancel-open : (row : EnvRow) (p : ActorPool) → is_open (fill_cancelled strip row p) ≡ is_open p
  unfolding fill_cancelled
  cancel-open row p = if_elim (λ (q : ActorPool). is_open q ≡ is_open p) _ _ _ refl refl

  cancel-waiting :
      (k : Key) (row : EnvRow) (p : ActorPool)
      → waiting k (fill_cancelled strip row p)
        ≡ waiting k p
          + (if is_open p && leb (attempts (row_key strip row) p + 1) 2 && has_row_key k row
              then 1
              else 0)
  unfolding fill_cancelled
  cancel-waiting k row p = ground arith

  cancel_all_closed :
      (k : Key) (rows : List EnvRow) (p : ActorPool)
      → is_open p ≡ false
      → waiting k (cancel_all rows p) ≡ waiting k p
  unfolding cancel_all
  cancel_all_closed k [] p closed = refl
  cancel_all_closed k (row ∷ rows) p closed =
      let q = fill_cancelled strip row p in
      ground
        (arith, cancel-waiting k row p, cancel_all_closed k rows q (cancel-open row p ∙ closed))

  cancel_all_open :
      (k : Key) (rows : List EnvRow) (p : ActorPool)
      → is_open p ≡ true
      → waiting k (cancel_all rows p) + min 2 (attempts k p)
        ≡ waiting k p + min 2 (attempts k p + count_if (has_row_key k) rows)
  unfolding cancel_all
  cancel_all_open k [] p open_ = omega arith
  cancel_all_open k (row ∷ rows) p open_ =
      let q = fill_cancelled strip row p in
      let rest = cancel_all_open k rows q (cancel-open row p ∙ open_) in
      let put_back = cancel-waiting k row p in
      elim (Bool-cases (row_key strip row == k)) [
        | inl same ↦
            let again : (is_open p
                  && leb (attempts (row_key strip row) p + 1) 2
                  && has_row_key k row)
                ≡ leb (attempts k p + 1) 2 =
              ap (λ b. b && leb (attempts (row_key strip row) p + 1) 2 && has_row_key k row) open_
              ∙ ap (λ b. leb (attempts (row_key strip row) p + 1) 2 && b) same
              ∙ and_true (leb (attempts (row_key strip row) p + 1) 2)
              ∙ ap (λ j. leb (attempts j p + 1) 2)
                  ((key_eq.beq_iff (row_key strip row) k).0 same) in
            ground (arith, cancel-attempts k row p, again)
        | inr other ↦ ground (arith, cancel-attempts k row p)
      ]

  -- Cancelled allocations of a row that had none before, in a pool that is not closing and has no
  -- allocation error, put the row back among the rows to be tried again the first two times, and not
  -- after that; in a pool that is closing or has an error they never do. None of these rows is taken
  -- in between.
  pub cancel_all_lem :
      (k : Key) (rows : List EnvRow) (p : ActorPool)
      → lookup k p.cancel_attempts ≡ none
      → waiting k (cancel_all rows p)
        ≡ waiting k p + (if is_open p then min 2 (count_if (has_row_key k) rows) else 0)
  cancel_all_lem k rows p fresh = elim (Bool-cases (is_open p)) [
    | inl open_ ↦
        let none_before : attempts k p ≡ 0 = ap (or_zero) fresh in
        let counted = cancel_all_open k rows p open_ in
        let all_put : waiting k (cancel_all rows p)
            ≡ waiting k p + min 2 (count_if (has_row_key k) rows) =
          omega (arith, none_before, counted) in
        all_put
        ∙ ap (λ b. waiting k p + (if b then min 2 (count_if (has_row_key k) rows) else 0))
            (sym open_)
    | inr closed ↦
        cancel_all_closed k rows p closed
        ∙ omega arith
        ∙ ap (λ b. waiting k p + (if b then min 2 (count_if (has_row_key k) rows) else 0))
            (sym closed)
  ]
