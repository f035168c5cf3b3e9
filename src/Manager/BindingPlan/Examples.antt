-- ===== src/Manager/BindingPlan/Examples.antt =====
-- The theorem on binding plans at a concrete repository.
use safactory.Base.{string_eq, [], insert, refl, true, ◌∷◌, ◌≡◌}
use safactory.Data.Environments.{
  flag_matches, is_after, limited, list_environment_rows, or_job, query_matches, select_rows,
  text_matches,
}
use safactory.Data.Environments.Examples.{three_rows}
use safactory.Manager.Repository.{init}
use safactory.Manager.Repository.Images.{
  env_images, active_rows, get_env_image_map, get_image_to_env_map, or_blank,
}
use safactory.Manager.BindingPlan.{build_binding_plan}
use safactory.Manager.BindingPlan.Planned.{build_lem, IsPlanned}

images_known : get_env_image_map (init "j" "" true) three_rows ≡ ("a", "x") ∷ ("c", "y") ∷ []
unfolding get_env_image_map env_images active_rows or_blank list_environment_rows select_rows
    query_matches text_matches flag_matches is_after limited or_job init insert
images_known = refl

build_lem_example :
    IsPlanned
      (λ s. s)
      (get_env_image_map (init "j" "" true) three_rows)
      (build_binding_plan
        (λ s. s)
        (get_env_image_map (init "j" "" true) three_rows)
        (get_image_to_env_map (init "j" "" true) three_rows))
build_lem_example = build_lem (λ s. s) (init "j" "" true) three_rows
