-- ===== src/Data/Environments/Active.antt =====
-- The rows that are still to be run: of a job, neither finished nor deleted.
use safactory.Base.{
  string_eq, nat_eq, Bool, List, Option, String, [], arith, count_if, false, if◌then◌else◌, keep_if,
  none, not, refl, some, true, ℕ, ◌&&◌, ◌==◌, ◌∷◌, ◌≡◌,
}
use safactory.Data.Environments.{
  EnvRow, EnvironmentQuery, any_unknown, apply_update, apply_updates, exactly_one, finished_query,
  flag_matches, is_unknown, mark_environment_finished, query_matches, set_finished, text_matches,
  update_environment_rows, update_matches, updated_rows,
}

-- The query that the scheduler sends.
abbrev pub active_query : String → ℕ → Option ℕ → EnvironmentQuery
active_query job after limit = record {
  job_id = job;
  env_id = "";
  after_id = after;
  offset = 0;
  limit = limit;
  finished = some false;
  is_deleted = some false;
}

abbrev pub is_active : String → EnvRow → Bool
is_active job row = text_matches job row.job_id && (not row.finished && not row.is_deleted)

-- The active rows after a cursor.
abbrev pub active_after : List EnvRow → String → ℕ → List EnvRow
active_after table job after = keep_if (query_matches (active_query job after none)) table

-- Whether a row is the environment of a job.
abbrev pub is_env : String → String → EnvRow → Bool
is_env job env_id row = text_matches job row.job_id && (row.env_id == env_id)

count_same :
    (f g : EnvRow → Bool) (table : List EnvRow)
    → ((row : EnvRow) → f row ≡ g row)
    → count_if f table ≡ count_if g table
count_same f g [] same = refl
count_same f g (row ∷ table) same = ground (arith, same row, count_same f g table same)

-- When an environment with an id that is not blank is marked as finished, the active rows are those
-- that were active less the rows of this environment; the answer is 1 where there is exactly one such
-- row that is not deleted, and an exception where there is not, in which case such rows are marked
-- all the same.
pub mark_finished_lem :
    (job env_id : String) (table : List EnvRow)
    → (env_id == "") ≡ false
    → let out = mark_environment_finished job table env_id in
      (keep_if (is_active job) out.0
        ≡ keep_if (λ row. is_active job row && not (is_env job env_id row)) table)
      × (out.1 ≡ (
          if count_if (λ row. is_env job env_id row && not row.is_deleted) table == 1
          then some 1
          else none))
unfolding mark_environment_finished update_environment_rows any_unknown is_unknown updated_rows
    apply_updates apply_update update_matches finished_query exactly_one text_matches flag_matches
mark_finished_lem job env_id table named = (marked table, answered)
  where
    marked :
        (table : List EnvRow)
        → keep_if
            (is_active job)
            (updated_rows (finished_query job env_id) (set_finished true ∷ []) table)
          ≡ keep_if (λ row. is_active job row && not (is_env job env_id row)) table
    marked [] = refl
    marked (row ∷ rows) = ground (arith, marked rows, named)

    answered : (mark_environment_finished job table env_id).1 ≡ (
        if count_if (λ row. is_env job env_id row && not row.is_deleted) table == 1
        then some 1
        else none)
    answered = ground (
      arith,
      nat_eq.beq_iff (count_if (update_matches (finished_query job env_id)) table) 1,
      count_same (update_matches (finished_query job env_id))
          (λ row. is_env job env_id row && not row.is_deleted) table (λ row. ground (arith, named)),
    )
