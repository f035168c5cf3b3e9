-- ===== src/Data/Environments/Examples.antt =====
-- Tests of the table of environments, and its theorem at a concrete table.
use safactory.Base.{
  string_eq, nat_eq, Bool, List, String, [], count_if, false, if◌then◌else◌, keep_if, map, none,
  not, refl, some, true, ℕ, ◌&&◌, ◌==◌, ◌∷◌, ◌≡◌,
}
use safactory.Data.Environments.{
  EnvRow, any_unknown, flag_matches, insert_environment_rows, is_after, is_unknown, limited,
  list_environment_refs, list_environment_rows, mark_environment_finished, number_rows, or_job,
  query_matches, select_rows, set_finished, text_matches, unknown, update_environment_rows,
  updated_rows, with_job,
}
use safactory.Data.Environments.Active.{active_query, mark_finished_lem, is_active, is_env}

abbrev pub env_row : ℕ → String → String → Bool → EnvRow
env_row id env_id image finished = record {
  id = id;
  job_id = "j";
  env_id = env_id;
  env_name = env_id;
  image = some image;
  group_id = "";
  finished = finished;
  is_deleted = false;
}

abbrev pub three_rows : List EnvRow
three_rows = env_row 1 "a" "x" false ∷ env_row 2 "b" "" true ∷ env_row 3 "c" "y" false ∷ []

page_after_first :
    map (λ row. row.id) (list_environment_rows "j" three_rows (active_query "" 1 (some 5))) ≡ 3 ∷ []
unfolding list_environment_rows select_rows query_matches text_matches flag_matches is_after limited
    or_job
page_after_first = refl

unknown_field_refused :
    update_environment_rows three_rows
      (active_query "j" 0 none)
      (set_finished true ∷ unknown "x" ∷ [])
    ≡ (three_rows, none)
unfolding update_environment_rows any_unknown is_unknown updated_rows
unknown_field_refused = refl

references_listed :
    list_environment_refs three_rows (active_query "j" 0 (some 1)) ≡ (1, "a", "a") ∷ []
unfolding list_environment_refs query_matches text_matches flag_matches is_after limited
references_listed = refl

inserted_numbered :
    map (λ row. row.id) (insert_environment_rows "k" 4 [] three_rows).0 ≡ 4 ∷ 5 ∷ 6 ∷ []
unfolding insert_environment_rows number_rows with_job or_job
inserted_numbered = refl

mark_finished_lem_example :
    let out = mark_environment_finished "j" three_rows "a" in
    (keep_if (is_active "j") out.0
      ≡ keep_if (λ row. is_active "j" row && not (is_env "j" "a" row)) three_rows)
    × (out.1 ≡ (
        if count_if (λ row. is_env "j" "a" row && not row.is_deleted) three_rows == 1
        then some 1
        else none))
mark_finished_lem_example = mark_finished_lem "j" "a" three_rows refl
