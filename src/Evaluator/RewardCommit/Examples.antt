-- ===== src/Evaluator/RewardCommit/Examples.antt =====
-- Tests of the row that a reward is written to, and its theorem at concrete queries.
use safactory.Base.{
  refl, string_eq, nat_eq, option_eq, List, String, [], contains, false, some, true, ℕ, suc, zero,
  ◌∷◌, ◌≡◌,
}
use safactory.Evaluator.RewardTarget.{
  Row, number, is_candidate, is_http_200, is_later, is_success, is_trajectory_step, latest,
  latest_of, model_matches, non_trajectory_event_types, select_reward_target, step_matches,
  text_after,
}
use safactory.Evaluator.RewardCommit.{
  RewardCommitter, target, not_visible, read_reward_target, read_for, gateway_step,
  use_gateway_target, find_gateway_target, find_target, or_with_messages, or_exception, at_step,
  is_at, without_messages, any_unclassified, is_unclassified, next_step_id, highest_step,
}
use safactory.Evaluator.RewardCommit.Target.{IsRead, read_reward_target_lem}

abbrev step : ℕ → String → Row
step n id = record {
  step_id = n;
  created_at = "t1";
  record_id = id;
  llm_model = "m";
  has_messages = true;
  has_response = true;
  is_session_completed = false;
  is_terminal = false;
  metadata = record {
    event_type = some "gateway_inference";
    synthetic_stop = false;
    is_session_completed = false;
    status_code = number 200;
  };
}

-- The step shows from the second attempt on.
abbrev queries : ℕ → List Row
queries zero = step 1 "a" ∷ []
queries (suc zero) = []
queries (suc (suc n)) = step 1 "a" ∷ step 2 "b" ∷ []

abbrev committer : RewardCommitter
committer = record { llm_model = "m"; has_gateway = true; db_read_retries = 1 }

reads_second :
    read_reward_target committer (some 2) queries
    ≡ target (record (step 2 "b") { has_messages = false; has_response = false })
unfolding read_reward_target read_for gateway_step use_gateway_target find_gateway_target
    find_target or_with_messages or_exception at_step is_at without_messages any_unclassified
    is_unclassified select_reward_target latest_of latest is_later text_after is_candidate
    is_trajectory_step non_trajectory_event_types is_success step_matches model_matches is_http_200
    contains
reads_second = refl

not_yet :
    read_reward_target (record committer { db_read_retries = 0 }) (some 2) queries ≡ not_visible
unfolding read_reward_target read_for gateway_step use_gateway_target find_gateway_target
    find_target or_with_messages or_exception at_step is_at without_messages any_unclassified
    is_unclassified select_reward_target latest_of latest is_later text_after is_candidate
    is_trajectory_step non_trajectory_event_types is_success step_matches model_matches is_http_200
    contains
not_yet = refl

follows_highest : next_step_id (step 4 "a" ∷ step 2 "b" ∷ []) ≡ 5
unfolding next_step_id highest_step
follows_highest = refl

read_reward_target_lem_example :
    IsRead committer 2 queries (read_reward_target committer (some 2) queries)
unfolding use_gateway_target
read_reward_target_lem_example = read_reward_target_lem committer 2 queries refl
