-- ===== src/Evaluator/RewardCommit.antt =====
-- evaluator/reward_committer.py: where the committer looks for the row that a reward is written to. The
-- rows of the session that its queries find, one list for each query, are a parameter.
pub mod Target
pub mod Examples
use safactory.Base.{
  string_eq, nat_eq, option_eq, Bool, List, Option, String, [], contains, false, keep_if, map, max,
  none, not, some, suc, true, zero, ℕ, ◌&&◌, ◌+◌, ◌==◌, ◌||◌, ◌∷◌,
}
use safactory.Evaluator.RewardTarget.{Row, non_trajectory_event_types, select_reward_target}

-- A query without the columns of the messages and the response.
pub without_messages : Row → Row
without_messages row = record row { has_messages = false; has_response = false }

-- The query of one step of a model.
pub is_at : ℕ → String → Row → Bool
is_at step_id llm_model row = (row.step_id == step_id) && (row.llm_model == llm_model)

-- A row that could be a step only by its messages or its response.
pub is_unclassified : Row → Bool
unfolding non_trajectory_event_types
is_unclassified row =
    not row.metadata.synthetic_stop
    && not (contains row.metadata.event_type non_trajectory_event_types)
    && not (row.metadata.event_type == some "gateway_inference")

pub any_unclassified : List Row → Bool
unfolding is_unclassified
any_unclassified [] = false
any_unclassified (row ∷ rows) = is_unclassified row || any_unclassified rows

-- What is found by the query without messages, or else by the query with them, which is made only
-- where a row is unclassified.
pub or_with_messages : Option Row → Bool → Option Row → Option Row
or_with_messages (some target) again full = some target
or_with_messages none true full = full
or_with_messages none false full = none

pub find_target : (List Row → Option Row) → List Row → List Row → Option Row
unfolding or_with_messages any_unclassified without_messages
find_target select quick full =
    or_with_messages (select (map without_messages quick)) (any_unclassified quick) (select full)

pub at_step : ℕ → String → (ℕ → List Row) → ℕ → List Row
unfolding is_at
at_step step_id llm_model queries n = keep_if (is_at step_id llm_model) (queries n)

-- The attempts that are made for a step of the gateway, with two queries for each; the last one is
-- followed by an exception.
pub find_gateway_target : ℕ → ℕ → String → (ℕ → List Row) → Option Row
unfolding find_target at_step
find_gateway_target zero step_id llm_model queries = none
find_gateway_target (suc attempts) step_id llm_model queries =
    let rest = find_gateway_target attempts step_id llm_model (λ n. queries (n + 2)) in
    or_with_messages
      (find_target (λ rows. select_reward_target rows none none true)
        (at_step step_id llm_model queries 0) (at_step step_id llm_model queries 1))
      true rest

-- The committer: the model whose steps it asks the gateway for, whether it has a gateway at all, and
-- how often it reads again.
pub record RewardCommitter : Type 0 where
  pub llm_model : String
  pub has_gateway : Bool
  pub db_read_retries : ℕ

pub use_gateway_target : RewardCommitter → Bool
use_gateway_target c = c.has_gateway && not (c.llm_model == "")

-- A target, none, or the exception that the target of the gateway is not visible.
pub data Found : Type 0 where
  target : Row → Found
  no_target : Found
  not_visible : Found

pub or_exception : Option Row → Found
or_exception none = not_visible
or_exception (some row) = target row

pub or_none : Option Row → Found
or_none none = no_target
or_none (some row) = target row

pub when : Bool → String → Option String
when true llm_model = some llm_model
when false llm_model = none

-- The step that the gateway names, when it is asked and answers.
pub gateway_step : Bool → Option ℕ → Option ℕ
gateway_step true answer = answer
gateway_step false answer = none

pub read_for : RewardCommitter → Option ℕ → (ℕ → List Row) → Found
unfolding find_gateway_target find_target or_exception or_none when use_gateway_target
read_for c (some step_id) queries =
    or_exception (find_gateway_target (c.db_read_retries + 1) step_id c.llm_model queries)
read_for c none queries = or_none (
    find_target
      (λ rows.
        select_reward_target rows none (when (use_gateway_target c) c.llm_model)
          (use_gateway_target c))
      (queries 0) (queries 1))

-- `_read_reward_target`, from the gateway's answer on.
pub read_reward_target : RewardCommitter → Option ℕ → (ℕ → List Row) → Found
unfolding read_for gateway_step use_gateway_target
read_reward_target c answer queries =
    read_for c (gateway_step (use_gateway_target c) answer) queries

-- `_next_step_id`
pub highest_step : List Row → ℕ
highest_step [] = 0
highest_step (row ∷ rows) = max row.step_id (highest_step rows)

pub next_step_id : List Row → ℕ
unfolding highest_step
next_step_id [] = 0
next_step_id (row ∷ rows) = highest_step (row ∷ rows) + 1
