-- ===== src/Evaluator/RewardTarget/Wanted.antt =====
-- The row that a reward is written to is a step as it is asked for, and none of a later step is.
use safactory.Base.{
  arith, string_eq, nat_eq, option_eq, Bool, List, inl, refl, true, ◌≡◌, ◌≤◌, ◌⊎◌, Bool-cases, ap,
  false, inr, none, some, ◌∙◌, Option, String, ℕ, ◌≢◌, ◌<◌, ◌↔◌, contains, option_beq_iff,
  some_injective, ◌&&◌, ◌||◌, not, ◌==◌,
}
use safactory.Evaluator.RewardTarget.{
  Row, StatusCode, absent, unreadable, number, is_candidate, select_reward_target,
  is_trajectory_step, is_success, is_http_200, step_matches, model_matches,
  non_trajectory_event_types,
}
use safactory.Evaluator.RewardTarget.Choice.{IsIn, IsSelected, select-IsSelected}

-- A step of a trajectory: no summary and no end of a session, not synthetic, and an inference of the
-- gateway whose status is below 400 where it is a number, or a row of another origin with messages or
-- a response.

abbrev pub IsStep : Row → Type 0
IsStep row =
    (row.metadata.event_type ≢ some "gateway_session_close")
    × (row.metadata.event_type ≢ some "episode_summary")
    × (row.metadata.event_type ≢ some "evaluation_summary")
    × (row.metadata.synthetic_stop ≡ false)
    × (row.metadata.event_type ≡ some "gateway_inference"
        → (n : ℕ) → row.metadata.status_code ≡ number n
        → n < 400)
    × (row.metadata.event_type ≢ some "gateway_inference"
        → (row.has_messages ≡ true) ⊎ (row.has_response ≡ true))

-- What is asked of the row: a step, of this step id and this model where they are given, and with the
-- status 200 where it is required.
abbrev pub IsWanted : Option ℕ → Option String → Bool → Row → Type 0
IsWanted step_id llm_model require_http_200 row =
    IsStep row
    × ((n : ℕ) → step_id ≡ some n → row.step_id ≡ n)
    × ((model : String) → llm_model ≡ some model → model ≢ "" → row.llm_model ≡ model)
    × (require_http_200 ≡ true → row.metadata.status_code ≡ number 200)

event_lem :
    (e : Option String)
    → (contains e non_trajectory_event_types ≡ false) ↔ (
        (e ≢ some "gateway_session_close")
        × (e ≢ some "episode_summary")
        × (e ≢ some "evaluation_summary"))
unfolding non_trajectory_event_types contains
event_lem e =
    let closes = option_beq_iff (some "gateway_session_close") e in
    let episode = option_beq_iff (some "episode_summary") e in
    let evaluation = option_beq_iff (some "evaluation_summary") e in
    ground (arith, closes, episode, evaluation)

success_lem : (code : StatusCode) → (is_success code ≡ true) ↔ ((n : ℕ) → code ≡ number n → n < 400)
unfolding is_success
success_lem absent = (λ _ n e. absurd (cc e), λ _. refl)
success_lem unreadable = (λ _ n e. absurd (cc e), λ _. refl)
success_lem (number m) =
    (λ h n e. let same : m ≡ n = cc e in ground (arith, same), λ h. ground (arith, h m refl))

http_200_lem : (code : StatusCode) → (is_http_200 code ≡ true) ↔ (code ≡ number 200)
unfolding is_http_200
http_200_lem absent = (λ h. absurd (cc h), λ e. absurd (cc e))
http_200_lem unreadable = (λ h. absurd (cc h), λ e. absurd (cc e))
http_200_lem (number m) = (
  λ h. ap number ((nat_eq.beq_iff m 200).0 h),
  λ e. let same : m ≡ 200 = cc e in (nat_eq.beq_iff m 200).1 same,
)

trajectory-IsStep : (row : Row) → (is_trajectory_step row ≡ true) ↔ IsStep row
unfolding is_trajectory_step
trajectory-IsStep row =
    let event = event_lem row.metadata.event_type in
    let code = success_lem row.metadata.status_code in
    let gateway = option_beq_iff row.metadata.event_type (some "gateway_inference") in
    (
      λ h.
          let none_of = event.0 (ground arith) in
          (
            none_of.0,
            none_of.1,
            none_of.2,
            ground arith,
            λ g. let is_gateway = gateway.1 g in code.0 (ground (arith, is_gateway)),
            λ g. ground (arith, gateway, g),
          ),
      λ w.
          let other = event.1 (w.0, w.1, w.2) in
          elim (Bool-cases (row.metadata.event_type == some "gateway_inference")) [
            | inl g ↦ let low = code.1 (w.4 (gateway.0 g)) in ground (arith, other, w.3, g, low)
            | inr o ↦
                let kept = w.5 (λ e. absurd (cc (o, gateway.1 e))) in
                ground (arith, other, w.3, o, kept)
          ],
    )

matches_lem :
    (step_id : Option ℕ) (n : ℕ)
    → (step_matches step_id n ≡ true) ↔ ((m : ℕ) → step_id ≡ some m → n ≡ m)
unfolding step_matches
matches_lem none n = (λ _ m e. absurd (cc e), λ _. refl)
matches_lem (some k) n =
    (λ h m e. (nat_eq.beq_iff n k).0 h ∙ some_injective e, λ h. (nat_eq.beq_iff n k).1 (h k refl))

model_lem :
    (llm_model : Option String) (m : String)
    → (model_matches llm_model m ≡ true)
      ↔ ((model : String) → llm_model ≡ some model → model ≢ "" → m ≡ model)
unfolding model_matches
model_lem none m = (λ _ model e. absurd (cc e), λ _. refl)
model_lem (some k) m = (
  λ h model e given.
      let same : k ≡ model = some_injective e in
      ground (arith, same, given, string_eq.beq_iff k "", string_eq.beq_iff m k),
  λ h. elim (Bool-cases (k == "")) [
    | inl blank ↦ ground (arith, blank)
    | inr given ↦
        let same = h k refl (λ e. absurd (cc (given, (string_eq.beq_iff k "").1 e))) in
        ground (arith, (string_eq.beq_iff m k).1 same)
  ],
)

candidate-IsWanted :
    (step_id : Option ℕ) (llm_model : Option String) (require_http_200 : Bool) (row : Row)
    → (is_candidate step_id llm_model require_http_200 row ≡ true)
      ↔ IsWanted step_id llm_model require_http_200 row
unfolding is_candidate
candidate-IsWanted step_id llm_model require_http_200 row =
    let step = trajectory-IsStep row in
    let id = matches_lem step_id row.step_id in
    let model = model_lem llm_model row.llm_model in
    let code = http_200_lem row.metadata.status_code in
    (
      λ h. (
        step.0 (ground arith),
        id.0 (ground arith),
        model.0 (ground arith),
        λ required. code.0 (ground arith),
      ),
      λ w.
          let s = step.1 w.0 in
          let i = id.1 w.1 in
          let m = model.1 w.2 in
          by_status require_http_200 s i m (λ required. code.1 (w.3 required)),
    )
  where
    by_status :
        (required : Bool)
        → is_trajectory_step row ≡ true
        → step_matches step_id row.step_id ≡ true
        → model_matches llm_model row.llm_model ≡ true
        → (required ≡ true → is_http_200 row.metadata.status_code ≡ true)
        → (is_trajectory_step row
            && step_matches step_id row.step_id
            && model_matches llm_model row.llm_model
            && (not required || is_http_200 row.metadata.status_code))
          ≡ true
    by_status true s i m h = ground (arith, h refl)
    by_status false s i m h = ground arith

-- Where no row is wanted, none is chosen; else one that is, and none that is wanted is of a later
-- step.
abbrev pub IsBest : (Row → Type 0) → List Row → Option Row → Type 0
IsBest P rows none = (r : Row) → IsIn r rows → ¬ P r
IsBest P rows (some row) =
    IsIn row rows × P row × ((r : Row) → IsIn r rows → P r → r.step_id ≤ row.step_id)

best_lem :
    (test : Row → Bool) (P : Row → Type 0) (rows : List Row) (o : Option Row)
    → ((r : Row) → (test r ≡ true) ↔ P r)
    → IsSelected test rows o
    → IsBest P rows o
best_lem test P rows none iff s = λ r i p. absurd (cc (s r i, (iff r).1 p))
best_lem test P rows (some row) iff s = (s.0, (iff row).0 s.1, λ r i p. s.2 r i ((iff r).1 p))

-- A reward goes to a row that is a step of a trajectory, of the step id and the model that are given
-- and with the status 200 where it is required, and of the latest step id among these; it goes
-- nowhere only if there is no such row.
pub select_lem :
    (rows : List Row) (step_id : Option ℕ) (llm_model : Option String) (require_http_200 : Bool)
    → IsBest
        (IsWanted step_id llm_model require_http_200)
        rows
        (select_reward_target rows step_id llm_model require_http_200)
select_lem rows step_id llm_model require_http_200 =
    best_lem (is_candidate step_id llm_model require_http_200)
      (IsWanted step_id llm_model require_http_200) rows
      (select_reward_target rows step_id llm_model require_http_200)
      (candidate-IsWanted step_id llm_model require_http_200)
      (select-IsSelected rows step_id llm_model require_http_200)
