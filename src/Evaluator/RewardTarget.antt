-- ===== src/Evaluator/RewardTarget.antt =====
-- evaluator/trajectory_policy.py: which persisted rows are steps of a trajectory, and which of them a
-- reward is written to. A row comes with its metadata parsed.
pub mod Choice
pub mod Wanted
pub mod Examples
use Prim.Native.String.{compare}
use Prim.Native.Nat.{Ordering}
use safactory.Base.{
  string_eq, nat_eq, option_eq, Bool, List, Option, String, [], contains, false, if◌then◌else◌,
  keep_if, ltb, none, not, some, true, ℕ, ◌&&◌, ◌==◌, ◌||◌, ◌∷◌,
}

-- `metadata["status_code"]`: absent, a number, or a value that `int` refuses.
pub data StatusCode : Type 0 where
  absent unreadable : StatusCode
  number : ℕ → StatusCode

-- The entries of `metadata_from_row` that the rules read.
pub record Metadata : Type 0 where
  pub event_type : Option String
  pub synthetic_stop : Bool
  pub is_session_completed : Bool
  pub status_code : StatusCode

-- A row of session steps; `int(x or 0)` and `str(x or "")` of its columns are done.
pub record Row : Type 0 where
  pub step_id : ℕ
  pub created_at : String
  pub record_id : String
  pub llm_model : String
  pub has_messages : Bool
  pub has_response : Bool
  pub is_session_completed : Bool
  pub is_terminal : Bool
  pub metadata : Metadata

unfoldable pub non_trajectory_event_types : List (Option String)
non_trajectory_event_types =
    some "gateway_session_close" ∷ some "episode_summary" ∷ some "evaluation_summary" ∷ []

pub is_session_sealing_event : Row → Bool
unfolding non_trajectory_event_types
is_session_sealing_event row =
    row.is_session_completed
    || row.is_terminal
    || row.metadata.is_session_completed
    || contains row.metadata.event_type non_trajectory_event_types

-- `int(metadata.get("status_code") or 200) < 400`, and True where `int` refuses.
unfoldable pub is_success : StatusCode → Bool
is_success absent = true
is_success unreadable = true
is_success (number n) = ltb n 400

unfoldable pub is_trajectory_step : Row → Bool
unfolding non_trajectory_event_types is_success
is_trajectory_step row =
    if contains row.metadata.event_type non_trajectory_event_types || row.metadata.synthetic_stop
    then false
    else if row.metadata.event_type == some "gateway_inference"
    then is_success row.metadata.status_code
    else row.has_messages || row.has_response

-- `_status_code(row) == 200`
unfoldable pub is_http_200 : StatusCode → Bool
is_http_200 absent = false
is_http_200 unreadable = false
is_http_200 (number n) = n == 200

-- `step_id is None or row["step_id"] == step_id`
unfoldable pub step_matches : Option ℕ → ℕ → Bool
step_matches none n = true
step_matches (some m) n = n == m

-- `not llm_model or row["llm_model"] == llm_model`
unfoldable pub model_matches : Option String → String → Bool
model_matches none m = true
model_matches (some model) m = (model == "") || (m == model)

unfoldable pub is_candidate : Option ℕ → Option String → Bool → Row → Bool
unfolding is_trajectory_step step_matches model_matches is_http_200
is_candidate step_id llm_model require_http_200 row =
    is_trajectory_step row
    && step_matches step_id row.step_id
    && model_matches llm_model row.llm_model
    && (not require_http_200 || is_http_200 row.metadata.status_code)

unfoldable pub text_after : String → String → Bool
text_after a b = elim (compare a b) [ Ordering.gt ↦ true | _ ↦ false ]

-- The order of `(step_id, created_at, record_id)`.
unfoldable pub is_later : Row → Row → Bool
unfolding text_after
is_later a b =
    ltb b.step_id a.step_id
    || ((a.step_id == b.step_id)
        && (text_after a.created_at b.created_at
            || ((a.created_at == b.created_at) && text_after a.record_id b.record_id)))

-- `max`: the first of the greatest.
unfoldable pub latest : Row → List Row → Row
unfolding is_later
latest best [] = best
latest best (row ∷ rows) = latest (if is_later row best then row else best) rows

unfoldable pub latest_of : List Row → Option Row
unfolding latest
latest_of [] = none
latest_of (row ∷ rows) = some (latest row rows)

unfoldable pub select_reward_target : List Row → Option ℕ → Option String → Bool → Option Row
unfolding is_candidate latest_of
select_reward_target rows step_id llm_model require_http_200 =
    latest_of (keep_if (is_candidate step_id llm_model require_http_200) rows)
