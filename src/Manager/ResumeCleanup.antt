-- ===== src/Manager/ResumeCleanup.antt =====
-- manager/resume_cleanup.py: the sessions of a resumed job whose results are removed. Stripping a
-- string, the path of a session's results and whether it exists are parameters.
pub mod Lookups
pub mod Paths
pub mod Examples
use safactory.Base.{
  string_eq, lookup, Dict, List, Option, String, [], if◌then◌else◌, insert, none, some, ◌==◌, ◌∷◌,
  Bool, not, ◌||◌,
}
use safactory.Data.Environments.{EnvRow}

-- The rows by their result path, whose values are the answer, or the exception on two sessions with
-- one path.
pub data Selected : Type 0 where
  selected : Dict String EnvRow → Selected
  path_collision : String → String → String → Selected

pub and_then : Selected → (Dict String EnvRow → Selected) → Selected
and_then (selected d) next = next d
and_then (path_collision existing session path) next = path_collision existing session path

module _ (strip path_of : String → String) (exists : String → Bool) where
  -- The row of a session that exists, after the row that its path already has.
  pub keep_target : String → EnvRow → Option EnvRow → Dict String EnvRow → Selected
  keep_target job_id row none d =
      let session = strip row.env_id in
      selected (insert (path_of session) (record row { job_id = job_id; env_id = session }) d)
  keep_target job_id row (some existing) d =
      let session = strip row.env_id in
      if strip existing.env_id == session
      then selected d
      else path_collision (strip existing.env_id) session (path_of session)

  -- One round of the loop over the rows.
  pub select_row : String → EnvRow → Dict String EnvRow → Selected
  unfolding keep_target
  select_row job_id row d =
      let session = strip row.env_id in
      if (session == "") || not (exists (path_of session))
      then selected d
      else keep_target job_id row (lookup (path_of session) d) d

  pub select_targets : String → List EnvRow → Dict String EnvRow → Selected
  unfolding and_then select_row
  select_targets job_id [] d = selected d
  select_targets job_id (row ∷ rows) d =
      and_then (select_row job_id row d) (select_targets job_id rows)

  -- `select_generated_resume_environments`
  pub select_generated : String → List EnvRow → Selected
  unfolding select_targets
  select_generated job_id rows = select_targets job_id rows []
