-- ===== src/Evaluator/RewardTarget/Choice.antt =====
-- The row that a reward is written to passes the test, and none of a later step does.
use safactory.Base.{
  arith, string_eq, nat_eq, Bool, List, [], inl, keep_if, refl, true, ◌∷◌, ◌≡◌, ◌≤◌, ◌⊎◌,
  Bool-cases, ap, false, if_elim, if◌then◌else◌, inr, none, some, ◌∙◌, Option, String, ℕ,
}
use safactory.Evaluator.RewardTarget.{
  Row, is_later, latest, latest_of, is_candidate, select_reward_target,
}

-- The row is one of these.
abbrev pub IsIn : Row → List Row → Type 0
IsIn row [] = ⊥
IsIn row (r ∷ rows) = (row ≡ r) ⊎ IsIn row rows

latest-IsIn :
    (best : Row) (rows : List Row) → (latest best rows ≡ best) ⊎ IsIn (latest best rows) rows
unfolding latest
latest-IsIn best [] = inl refl
latest-IsIn best (row ∷ rows) =
    if_elim
      (λ (x : Row). (latest x rows ≡ best) ⊎ ((latest x rows ≡ row) ⊎ IsIn (latest x rows) rows))
      (is_later row best) _ _ (inr (latest-IsIn row rows))
      (elim (latest-IsIn best rows) [ inl e ↦ inl e | inr i ↦ inr (inr i) ])

next-ge :
    (best r : Row)
    → let next = if is_later r best then r else best in
      (best.step_id ≤ next.step_id) × (r.step_id ≤ next.step_id)
unfolding is_later
next-ge best r = elim (Bool-cases (is_later r best)) [
  | inl late ↦ rw (late) (ground (arith, nat_eq.beq_iff r.step_id best.step_id), omega arith)
  | inr old ↦ rw (old) (omega arith, ground arith)
]

latest-ge :
    (best : Row) (rows : List Row)
    → (best.step_id ≤ (latest best rows).step_id)
      × ((row : Row) → IsIn row rows → row.step_id ≤ (latest best rows).step_id)
unfolding latest
latest-ge best [] = (omega arith, λ row i. absurd i)
latest-ge best (r ∷ rows) =
    let next = if is_later r best then r else best in
    let (above, rest) = latest-ge next rows in
    let (from_best, from_r) = next-ge best r in
    (
      omega (arith, above, from_best),
      λ row i. elim i [
        | inl e ↦ omega (arith, above, from_r, ap (λ (x : Row). x.step_id) e)
        | inr later ↦ rest row later
      ],
    )

pub keep-IsIn :
    (test : Row → Bool) (row : Row) (rows : List Row)
    → IsIn row (keep_if test rows)
    → IsIn row rows × (test row ≡ true)
keep-IsIn test row [] i = absurd i
keep-IsIn test row (r ∷ rows) i = kept (keep-IsIn test row rows) (test r) refl i
  where
    kept :
        (IsIn row (keep_if test rows) → IsIn row rows × (test row ≡ true))
        → (b : Bool) → test r ≡ b
        → IsIn row (if b then r ∷ keep_if test rows else keep_if test rows)
        → IsIn row (r ∷ rows) × (test row ≡ true)
    kept later true e (inl same) = (inl same, ap test same ∙ e)
    kept later true e (inr i) = let (there, holds) = later i in (inr there, holds)
    kept later false e i = let (there, holds) = later i in (inr there, holds)

IsIn-keep :
    (test : Row → Bool) (row : Row) (rows : List Row)
    → IsIn row rows
    → test row ≡ true
    → IsIn row (keep_if test rows)
IsIn-keep test row [] i h = i
IsIn-keep test row (r ∷ rows) i h = kept (λ j. IsIn-keep test row rows j h) (test r) refl i
  where
    kept :
        (IsIn row rows → IsIn row (keep_if test rows))
        → (b : Bool) → test r ≡ b
        → IsIn row (r ∷ rows)
        → IsIn row (if b then r ∷ keep_if test rows else keep_if test rows)
    kept later true e (inl same) = inl same
    kept later true e (inr j) = inr (later j)
    kept later false e (inl same) = absurd (cc (e, h, ap test same))
    kept later false e (inr j) = later j

abbrev IsChosen : List Row → Option Row → Type 0
IsChosen rows none = (r : Row) → ¬ IsIn r rows
IsChosen rows (some row) = IsIn row rows × ((r : Row) → IsIn r rows → r.step_id ≤ row.step_id)

chosen_lem : (rows : List Row) → IsChosen rows (latest_of rows)
unfolding latest_of
chosen_lem [] = λ r i. i
chosen_lem (row ∷ rows) = (
  latest-IsIn row rows,
  λ r i. elim i [
    | inl e ↦ omega (arith, (latest-ge row rows).0, ap (λ (x : Row). x.step_id) e)
    | inr later ↦ (latest-ge row rows).1 r later
  ],
)

-- Where no row passes, none is selected; else one that passes, and none that passes is of a later
-- step.
abbrev pub IsSelected : (Row → Bool) → List Row → Option Row → Type 0
IsSelected test rows none = (r : Row) → IsIn r rows → test r ≡ false
IsSelected test rows (some row) =
    IsIn row rows
    × (test row ≡ true)
    × ((r : Row) → IsIn r rows → test r ≡ true → r.step_id ≤ row.step_id)

selected_lem :
    (test : Row → Bool) (rows : List Row) (o : Option Row)
    → IsChosen (keep_if test rows) o
    → IsSelected test rows o
selected_lem test rows none nowhere = λ r i. elim (Bool-cases (test r)) [
  | inl passes ↦ absurd (nowhere r (IsIn-keep test r rows i passes))
  | inr fails ↦ fails
]
selected_lem test rows (some row) (there, latest_there) =
    let (i, holds) = keep-IsIn test row rows there in
    (i, holds, λ r j passes. latest_there r (IsIn-keep test r rows j passes))

pub select-IsSelected :
    (rows : List Row) (step_id : Option ℕ) (llm_model : Option String) (require_http_200 : Bool)
    → IsSelected
        (is_candidate step_id llm_model require_http_200)
        rows
        (select_reward_target rows step_id llm_model require_http_200)
unfolding select_reward_target
select-IsSelected rows step_id llm_model require_http_200 =
    let test = is_candidate step_id llm_model require_http_200 in
    selected_lem test rows (latest_of (keep_if test rows)) (chosen_lem (keep_if test rows))
