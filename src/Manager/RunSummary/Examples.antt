-- ===== src/Manager/RunSummary/Examples.antt =====
-- The theorem on summaries at a concrete run.
use safactory.Base.{
  nat_eq, string_eq, Dict, String, [], false, length, refl, ◌+◌, ◌<◌, ◌↔◌, ◌∷◌, ◌≡◌,
}
use safactory.Manager.RunSummary.{run_status, run_summary, status_is}
use safactory.Manager.RunSummary.Totals.{summary_lem, counted}

abbrev two_results : Dict String String
two_results = ("a", "succeeded") ∷ ("b", "truncated") ∷ []

truncated_run : (run_summary "" false two_results).status ≡ "completed_with_truncations"
unfolding run_summary run_status status_is
truncated_run = refl

summary_lem_example :
    let s = run_summary "" false two_results in
    (s.succeeded_episodes + s.truncated_episodes + s.failed_episodes ≡ s.total_episodes)
    × (s.total_episodes ≡ length two_results)
    × ((s.status ≡ "succeeded") ↔ (
        (0 < length two_results)
        × (false ≡ false)
        × ((string_eq.beq "" "pool_stalled") ≡ false)
        × (counted "succeeded" two_results ≡ length two_results)))
summary_lem_example = summary_lem "" false two_results
