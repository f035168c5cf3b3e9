-- ===== src/Evaluator/RewardTarget/Examples.antt =====
-- Tests of the choice of a reward's row, and its theorem at concrete rows.
use safactory.Base.{
  refl, string_eq, nat_eq, option_eq, List, String, [], contains, false, none, some, true, ℕ, ◌∷◌,
  ◌≡◌,
}
use safactory.Evaluator.RewardTarget.{
  Row, is_candidate, is_http_200, is_later, is_session_sealing_event, is_success,
  is_trajectory_step, latest, latest_of, model_matches, non_trajectory_event_types, number,
  select_reward_target, step_matches, text_after,
}
use safactory.Evaluator.RewardTarget.Wanted.{select_lem, IsBest, IsWanted}

abbrev step : ℕ → String → Row
step n at = record {
  step_id = n;
  created_at = at;
  record_id = "";
  llm_model = "m";
  has_messages = true;
  has_response = true;
  is_session_completed = false;
  is_terminal = false;
  metadata = record {
    event_type = some "gateway_inference";
    synthetic_stop = false;
    is_session_completed = false;
    status_code = number 200;
  };
}

abbrev closing : Row
closing = record (step 9 "t9") {
  metadata = record (step 9 "t9").metadata { event_type = some "gateway_session_close" };
}

abbrev rows : List Row
rows = step 1 "t1" ∷ step 2 "t2" ∷ step 2 "t3" ∷ closing ∷ []

latest_step : select_reward_target rows none none true ≡ some (step 2 "t3")
unfolding select_reward_target latest_of latest is_later text_after is_candidate is_trajectory_step
    non_trajectory_event_types is_success step_matches model_matches is_http_200 contains
latest_step = refl

close_seals : is_session_sealing_event closing ≡ true
unfolding is_session_sealing_event non_trajectory_event_types contains
close_seals = refl

select_lem_example :
    IsBest (IsWanted none none true) rows (select_reward_target rows none none true)
select_lem_example = select_lem rows none none true
