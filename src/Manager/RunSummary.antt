-- ===== src/Manager/RunSummary.antt =====
-- manager/simulation_worker.py: the summary of a run from the results of its episodes.
pub mod Totals
pub mod Examples
use safactory.Base.{
  nat_eq, string_eq, Bool, Dict, String, [], count_if, if◌then◌else◌, length, not, ℕ, ◌-◌, ◌==◌,
  ◌∷◌,
}

-- `SimulationRunSummary`, less the rewards, which are copied.
pub record RunSummary : Type 0 where
  pub status : String
  pub total_episodes : ℕ
  pub succeeded_episodes : ℕ
  pub truncated_episodes : ℕ
  pub failed_episodes : ℕ
  pub is_cancelled : Bool

pub status_is : String → String → Bool
status_is wanted status = status == wanted

-- The chain of tests on a run that has results.
pub run_status : Bool → Bool → ℕ → ℕ → String
run_status cancelled pool_stalled failed truncated =
    if cancelled
    then "cancelled"
    else if pool_stalled
    then "failed_pool_stalled"
    else if not (failed == 0)
    then "completed_with_failures"
    else if not (truncated == 0)
    then "completed_with_truncations"
    else "succeeded"

-- The end of `run_all`, from the status of each episode by its key.
pub run_summary : String → Bool → Dict String String → RunSummary
unfolding run_status status_is
run_summary stop_reason cancelled [] = record {
  status = if stop_reason == "pool_stalled" then "failed_pool_stalled" else "failed_no_episodes";
  total_episodes = 0;
  succeeded_episodes = 0;
  truncated_episodes = 0;
  failed_episodes = 0;
  is_cancelled = cancelled;
}
run_summary stop_reason cancelled (result ∷ results) =
    let succeeded = count_if (λ r. status_is "succeeded" r.1) (result ∷ results) in
    let truncated = count_if (λ r. status_is "truncated" r.1) (result ∷ results) in
    let failed = length (result ∷ results) - succeeded - truncated in
    record {
      status = run_status cancelled (stop_reason == "pool_stalled") failed truncated;
      total_episodes = length (result ∷ results);
      succeeded_episodes = succeeded;
      truncated_episodes = truncated;
      failed_episodes = failed;
      is_cancelled = cancelled;
    }
