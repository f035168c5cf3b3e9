-- ===== src/Evaluator/RewardCommit/Target.antt =====
-- Which row the committer finds for a step that the gateway names.
use safactory.Base.{
  string_eq, nat_eq, option_eq, List, String, [], ap, arith, inl, inr, keep_if, map, none, refl,
  some, sym, true, ℕ, ◌∙◌, ◌∷◌, ◌≡◌, Bool, Option, false, subst, suc, zero, ◌+◌, ◌<◌, ◌⊎◌,
}
use safactory.Evaluator.RewardTarget.{
  Row, is_candidate, is_http_200, is_trajectory_step, model_matches, step_matches,
  select_reward_target,
}
use safactory.Evaluator.RewardTarget.Choice.{select-IsSelected, IsIn, IsSelected, keep-IsIn}
use safactory.Evaluator.RewardCommit.{
  RewardCommitter, target, not_visible, no_target, or_exception, use_gateway_target,
  read_reward_target, read_for, gateway_step, Found, is_at, without_messages, any_unclassified,
  at_step, find_gateway_target, find_target, or_with_messages,
}

-- A row of this step and this model, which is a trajectory step that was answered with 200.
abbrev pub IsSuccessAt : ℕ → String → Row → Type 0
IsSuccessAt step_id llm_model row =
    (row.step_id ≡ step_id)
    × (row.llm_model ≡ llm_model)
    × (is_trajectory_step row ≡ true)
    × (is_http_200 row.metadata.status_code ≡ true)

map-IsIn :
    (row : Row) (rows : List Row)
    → IsIn row (map without_messages rows)
    → (r : Row) × (IsIn r rows) × (row ≡ without_messages r)
map-IsIn row [] i = absurd i
map-IsIn row (r ∷ rows) (inl e) = (r, inl refl, e)
map-IsIn row (r ∷ rows) (inr i) =
    let (found, there, same) = map-IsIn row rows i in (found, inr there, same)

keep-at :
    (step_id : ℕ) (llm_model : String) (row : Row) (rows : List Row)
    → IsIn row (keep_if (is_at step_id llm_model) rows)
    → IsIn row rows × ((row.step_id ≡ step_id) × (row.llm_model ≡ llm_model))
unfolding is_at
keep-at step_id llm_model row rows i =
    let (there, holds) = keep-IsIn (is_at step_id llm_model) row rows i in
    (
      there,
      (
        ground (arith, nat_eq.beq_iff row.step_id step_id, holds),
        ground (arith, string_eq.beq_iff row.llm_model llm_model, holds),
      ),
    )

-- What makes a row without its messages a step makes the row a step.
stripped-step :
    (row : Row) → is_trajectory_step (without_messages row) ≡ true → is_trajectory_step row ≡ true
unfolding is_trajectory_step without_messages
stripped-step row h = ground arith

candidate_lem :
    (row : Row)
    → is_candidate none none true row ≡ true
    → (is_trajectory_step row ≡ true) × (is_http_200 row.metadata.status_code ≡ true)
unfolding is_candidate step_matches model_matches
candidate_lem row h = (ground arith, ground arith)

-- A success of the step among the rows of a query.
abbrev pub IsVisible : ℕ → String → List Row → Row → Type 0
IsVisible step_id llm_model rows found =
    (row : Row) × (IsIn row rows)
    × (row.record_id ≡ found.record_id)
    × IsSuccessAt step_id llm_model row

select-IsVisible :
    (step_id : ℕ) (llm_model : String) (rows : List Row) (found : Row)
    → IsSelected (is_candidate none none true) (keep_if (is_at step_id llm_model) rows) (some found)
    → IsVisible step_id llm_model rows found
select-IsVisible step_id llm_model rows found s =
    let at = keep-at step_id llm_model found rows s.0 in
    let success = candidate_lem found s.1 in
    (found, at.0, refl, (at.1.0, at.1.1, success.0, success.1))

stripped-IsVisible :
    (step_id : ℕ) (llm_model : String) (rows : List Row) (found : Row)
    → IsSelected
        (is_candidate none none true)
        (map without_messages (keep_if (is_at step_id llm_model) rows))
        (some found)
    → IsVisible step_id llm_model rows found
stripped-IsVisible step_id llm_model rows found s =
    let (row, there, same) = map-IsIn found (keep_if (is_at step_id llm_model) rows) s.0 in
    let at = keep-at step_id llm_model row rows there in
    let success = candidate_lem found s.1 in
    (
      row,
      at.0,
      unfold without_messages in sym (ap (λ (x : Row). x.record_id) same),
      (
        at.1.0,
        at.1.1,
        stripped-step row (ap is_trajectory_step (sym same) ∙ success.0),
        unfold without_messages in
            ap (λ (x : Row). is_http_200 x.metadata.status_code) (sym same) ∙ success.1,
      ),
    )

either_found :
    (a : Option Row) (again : Bool) (b : Option Row) (found : Row)
    → or_with_messages a again b ≡ some found
    → (a ≡ some found) ⊎ (b ≡ some found)
unfolding or_with_messages
either_found (some x) again b found e = inl e
either_found none true b found e = inr e
either_found none false b found e = absurd (cc e)

first_none :
    (a : Option Row) (again : Bool) (b : Option Row) → or_with_messages a again b ≡ none → a ≡ none
unfolding or_with_messages
first_none (some x) again b e = absurd (cc e)
first_none none again b e = refl

rest_none : (a : Option Row) (b : Option Row) → or_with_messages a true b ≡ none → b ≡ none
unfolding or_with_messages
rest_none (some x) b e = absurd (cc e)
rest_none none b e = e

-- The selection that a step of the gateway asks for.
abbrev select_http : List Row → Option Row
select_http rows = select_reward_target rows none none true

find-IsVisible :
    (step_id : ℕ) (llm_model : String) (quick full : List Row) (found : Row)
    → find_target select_http
        (keep_if (is_at step_id llm_model) quick)
        (keep_if (is_at step_id llm_model) full)
      ≡ some found
    → IsVisible step_id llm_model quick found ⊎ IsVisible step_id llm_model full found
unfolding find_target
find-IsVisible step_id llm_model quick full found e =
    let rows = map without_messages (keep_if (is_at step_id llm_model) quick) in
    let rows2 = keep_if (is_at step_id llm_model) full in
    elim (either_found (select_http rows)
      (any_unclassified (keep_if (is_at step_id llm_model) quick)) (select_http rows2) found e) [
        | inl first ↦ inl (
            stripped-IsVisible step_id llm_model quick found (
              subst (IsSelected (is_candidate none none true) rows) first
                (select-IsSelected rows none none true)))
        | inr second ↦ inr (
            select-IsVisible step_id llm_model full found (
              subst (IsSelected (is_candidate none none true) rows2) second
                (select-IsSelected rows2 none none true)))
      ]

find-none :
    (step_id : ℕ) (llm_model : String) (quick full : List Row)
    → find_target select_http
        (keep_if (is_at step_id llm_model) quick)
        (keep_if (is_at step_id llm_model) full)
      ≡ none
    → (row : Row) → IsIn row (map without_messages (keep_if (is_at step_id llm_model) quick))
    → is_candidate none none true row ≡ false
unfolding find_target
find-none step_id llm_model quick full e =
    let rows = map without_messages (keep_if (is_at step_id llm_model) quick) in
    let rows2 = keep_if (is_at step_id llm_model) full in
    let nothing =
      first_none (select_http rows) (any_unclassified (keep_if (is_at step_id llm_model) quick))
        (select_http rows2) e in
    subst (IsSelected (is_candidate none none true) rows) nothing
      (select-IsSelected rows none none true)

-- What the attempts come to: a success that one of their queries shows, or no row in the first query
-- of any attempt that is a success without its messages.
abbrev pub IsFound : ℕ → ℕ → String → (ℕ → List Row) → Option Row → Type 0
IsFound attempts step_id llm_model queries (some found) =
    (n : ℕ) × (n < attempts + attempts) × IsVisible step_id llm_model (queries n) found
IsFound attempts step_id llm_model queries none =
    (i : ℕ)
    → i < attempts
    → (row : Row)
    → IsIn row (map without_messages (keep_if (is_at step_id llm_model) (queries (i + i))))
    → is_candidate none none true row ≡ false

find_gateway_target_lem :
    (attempts step_id : ℕ) (llm_model : String) (queries : ℕ → List Row) (o : Option Row)
    → find_gateway_target attempts step_id llm_model queries ≡ o
    → IsFound attempts step_id llm_model queries o
unfolding find_gateway_target at_step
find_gateway_target_lem zero step_id llm_model queries none e = λ i h. absurd (omega (arith, h))
find_gateway_target_lem zero step_id llm_model queries (some found) e = absurd (cc e)
find_gateway_target_lem (suc k) step_id llm_model queries (some found) e =
    let now =
      find_target select_http (keep_if (is_at step_id llm_model) (queries 0))
        (keep_if (is_at step_id llm_model) (queries 1)) in
    let rest = find_gateway_target k step_id llm_model (λ n. queries (n + 2)) in
    elim (either_found now true rest found e) [
      | inl first ↦ elim (find-IsVisible step_id llm_model (queries 0) (queries 1) found first) [
        | inl v ↦ (0, omega arith, v)
        | inr v ↦ (1, omega arith, v)
      ]
      | inr later ↦
          let (n, bound, v) =
            find_gateway_target_lem k step_id llm_model (λ n. queries (n + 2)) (some found) later in
          (n + 2, omega (arith, bound), v)
    ]
find_gateway_target_lem (suc k) step_id llm_model queries none e =
    let now =
      find_target select_http (keep_if (is_at step_id llm_model) (queries 0))
        (keep_if (is_at step_id llm_model) (queries 1)) in
    let rest = find_gateway_target k step_id llm_model (λ n. queries (n + 2)) in
    let later =
      find_gateway_target_lem k step_id llm_model (λ n. queries (n + 2)) none
        (rest_none now rest e) in
    missed (first_none now true rest e) later
  where
    missed :
        find_target select_http
            (keep_if (is_at step_id llm_model) (queries 0))
            (keep_if (is_at step_id llm_model) (queries 1))
          ≡ none
        → IsFound k step_id llm_model (λ n. queries (n + 2)) none
        → IsFound (suc k) step_id llm_model queries none
    missed now_none later zero h row there =
        find-none step_id llm_model (queries 0) (queries 1) now_none row there
    missed now_none later (suc i) h row there =
        let same : suc i + suc i ≡ i + i + 2 = omega arith in
        later i (omega (arith, h)) row (
          subst
            (λ n. IsIn row (map without_messages (keep_if (is_at step_id llm_model) (queries n))))
            same there)

-- The same for the committer, whose attempts end in an exception and never in no target.
abbrev pub IsRead : RewardCommitter → ℕ → (ℕ → List Row) → Found → Type 0
IsRead c step_id queries (target found) =
    IsFound (c.db_read_retries + 1) step_id c.llm_model queries (some found)
IsRead c step_id queries not_visible =
    IsFound (c.db_read_retries + 1) step_id c.llm_model queries none
IsRead c step_id queries no_target = ⊥

exception-IsRead :
    (c : RewardCommitter) (step_id : ℕ) (queries : ℕ → List Row) (o : Option Row)
    → IsFound (c.db_read_retries + 1) step_id c.llm_model queries o
    → IsRead c step_id queries (or_exception o)
unfolding or_exception
exception-IsRead c step_id queries none found = found
exception-IsRead c step_id queries (some row) found = found

-- Where the committer has a gateway and a model and the gateway names a step: a target that is read
-- has the record id of a row of one of the two queries of one of its `db_read_retries + 1` attempts,
-- and this row is a trajectory step of that step id and that model answered with 200. Otherwise there
-- is the exception, and no row of that step id and that model in the first query of any attempt is a
-- step answered with 200 by what it has without its messages and its response.
pub read_reward_target_lem :
    (c : RewardCommitter) (step_id : ℕ) (queries : ℕ → List Row)
    → use_gateway_target c ≡ true
    → IsRead c step_id queries (read_reward_target c (some step_id) queries)
unfolding read_reward_target read_for gateway_step
read_reward_target_lem c step_id queries asked =
    let found =
      exception-IsRead c step_id queries
        (find_gateway_target (c.db_read_retries + 1) step_id c.llm_model queries)
        (find_gateway_target_lem (c.db_read_retries + 1) step_id c.llm_model queries _ refl) in
    rw (asked) found
