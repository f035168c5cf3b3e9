-- ===== src/Manager/ResumeCleanup/Examples.antt =====
-- Tests of the selection of results that are removed, and its theorem at concrete rows.
use safactory.Base.{
  string_eq, lookup, insert, String, [], ◌==◌, ◌∷◌, ◌≡◌, Bool, not, true, false, refl,
}
use safactory.Data.Environments.Examples.{env_row, three_rows}
use safactory.Manager.ResumeCleanup.{
  selected, path_collision, and_then, keep_target, select_row, select_targets, select_generated,
}
use safactory.Manager.ResumeCleanup.Paths.{IsResumed, select_generated_lem}

-- Every session but `b` has results.

abbrev not_b : String → Bool
not_b path = not (path == "b")

repeated_once :
    select_generated (λ s. s) (λ s. s) not_b "j" (env_row 4 "a" "z" false ∷ three_rows)
    ≡ selected (("a", env_row 4 "a" "z" false) ∷ ("c", env_row 3 "c" "y" false) ∷ [])
unfolding select_generated select_targets select_row keep_target and_then lookup insert
repeated_once = refl

one_path_refused :
    select_generated (λ s. s) (λ s. "p") (λ p. true) "j" three_rows ≡ path_collision "a" "b" "p"
unfolding select_generated select_targets select_row keep_target and_then lookup insert
one_path_refused = refl

select_generated_lem_example :
    IsResumed
      (λ s. s)
      (λ s. s)
      not_b
      "j"
      three_rows
      (select_generated (λ s. s) (λ s. s) not_b "j" three_rows)
select_generated_lem_example =
    select_generated_lem (λ s. s) (λ s. s) not_b (λ s. refl) "j" three_rows
