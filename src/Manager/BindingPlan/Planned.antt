-- ===== src/Manager/BindingPlan/Planned.antt =====
-- What a plan holds for each environment.
use safactory.Base.{
  ◌↔◌, string_eq, lookup, ==-self, Bool-cases, Dict, IsUnique, Option, String, [], ap, arith,
  contains, contains-add, inl, inr, ◌≢◌, is_some, lookup-insert, none, refl, some, some_injective,
  subst, true, ◌==◌, ◌∷◌, ◌≡◌, List, false, if_elim, if◌then◌else◌, insert, insert-IsUnique, sym,
  ◌∙◌, ◌⊎◌,
}
use safactory.Data.Environments.{EnvRow}
use safactory.Manager.Repository.{Repository}
use safactory.Manager.Repository.Images.{
  env_images, active_rows, get_env_image_map, get_image_to_env_map, or_blank,
}
use safactory.Manager.BindingPlan.{
  BindingPlan, bind_env, bind_envs, keep_first, build_binding_plan, keys_set, missing_images,
  plan_unless,
}

module _ (strip : String → String) where
  -- The image of an environment in a map, when it is there.
  abbrev pub stripped : Option String → Option String → Option String
  stripped none other = other
  stripped (some image) other = some (strip image)

  -- The plan binds at least what it bound.
  env_bound :
      (d : Dict String String) (plan : BindingPlan) (env : String)
      → IsUnique d
      → lookup env (bind_envs strip d plan).env_to_image
        ≡ stripped (lookup env d) (lookup env plan.env_to_image)
  unfolding bind_envs bind_env lookup
  env_bound [] plan env u = refl
  env_bound ((e, image) ∷ d) plan env u = ground (
    arith,
    string_eq.beq_iff e env,
    env_bound d (bind_env strip e (strip image) plan) env u.1,
    lookup-insert e env (strip image) plan.env_to_image,
  )

  -- What is needed and known stays so.
  Covers : String → BindingPlan → Type 0
  Covers image plan =
      (contains image plan.images_needed ≡ true) × (is_some (lookup image plan.image_to_env) ≡ true)

  kept-some :
      (image other env : String) (o : Option String) (d : Dict String String)
      → lookup other d ≡ o
      → is_some (lookup image d) ≡ true
      → is_some (lookup image (keep_first strip other env o d)) ≡ true
  unfolding keep_first
  kept-some image other env none d e h = ground (arith, lookup-insert other image env d)
  kept-some image other env (some x) d e h = h

  added-some :
      (image env : String) (o : Option String) (d : Dict String String)
      → lookup image d ≡ o
      → is_some (lookup image (keep_first strip image env o d)) ≡ true
  unfolding keep_first
  added-some image env none d e = ground (arith, lookup-insert image image env d, ==-self image)
  added-some image env (some x) d e = ap is_some e

  bind-Covers :
      (image env other : String) (plan : BindingPlan)
      → Covers image plan
      → Covers image (bind_env strip env other plan)
  unfolding bind_env Covers
  bind-Covers image env other plan c = (
    ground (arith, contains-add other image plan.images_needed, c.0),
    kept-some image other env (lookup other plan.image_to_env) plan.image_to_env refl c.1,
  )

  bind-itself :
      (env image : String) (plan : BindingPlan) → Covers image (bind_env strip env image plan)
  unfolding bind_env Covers
  bind-itself env image plan = (
    ground (arith, contains-add image image plan.images_needed, ==-self image),
    added-some image env (lookup image plan.image_to_env) plan.image_to_env refl,
  )

  binds-Covers :
      (d : Dict String String) (image : String) (plan : BindingPlan)
      → Covers image plan
      → Covers image (bind_envs strip d plan)
  unfolding bind_envs
  binds-Covers [] image plan c = c
  binds-Covers ((e, other) ∷ d) image plan c =
      binds-Covers d image (bind_env strip e (strip other) plan)
        (bind-Covers image e (strip other) plan c)

  env_covered :
      (d : Dict String String) (plan : BindingPlan) (env image : String)
      → lookup env d ≡ some image
      → Covers (strip image) (bind_envs strip d plan)
  unfolding bind_envs lookup
  env_covered [] plan env image h = absurd (cc h)
  env_covered ((e, other) ∷ d) plan env image h = elim (Bool-cases (e == env)) [
    | inl same ↦
        let eq : other ≡ image = some_injective (rw same at h) in
        subst (λ x. Covers (strip x) (bind_envs strip d (bind_env strip e (strip other) plan))) eq
          (binds-Covers d (strip other) (bind_env strip e (strip other) plan)
            (bind-itself e (strip other) plan))
    | inr differs ↦ env_covered d (bind_env strip e (strip other) plan) env image (rw differs at h)
  ]

  missing-absent :
      (d : Dict String String) (env : String)
      → lookup env d ≡ none
      → contains env (missing_images strip d) ≡ false
  unfolding missing_images lookup contains
  missing-absent [] env h = refl
  missing-absent ((e, image) ∷ d) env h = ground (arith, missing-absent d env)

  -- An environment is among the missing when its image is blank.
  contains-missing :
      (d : Dict String String) (env image : String)
      → IsUnique d
      → lookup env d ≡ some image
      → contains env (missing_images strip d) ≡ (strip image == "")
  unfolding missing_images lookup contains
  contains-missing [] env image u h = absurd (cc h)
  contains-missing ((e, other) ∷ d) env image u h =
      ground
        (arith, string_eq.beq_iff e env, missing-absent d env, contains-missing d env image u.1)

  -- The environment is there, and its image is blank.
  abbrev pub IsBlank : Dict String String → String → Type 0
  IsBlank d env = (image : String) × (lookup env d ≡ some image) × ((strip image == "") ≡ true)

  missing-IsBlank :
      (d : Dict String String) (env : String) (o : Option String)
      → IsUnique d
      → lookup env d ≡ o
      → (contains env (missing_images strip d) ≡ true) ↔ IsBlank d env
  missing-IsBlank d env none u e =
      (λ h. absurd (cc (h, missing-absent d env e)), λ blank. absurd (cc (e, blank.1)))
  missing-IsBlank d env (some image) u e =
      let named = contains-missing d env image u e in
      (
        λ h. (image, e, sym named ∙ h),
        λ blank.
            let same : blank.0 ≡ image = some_injective (sym blank.1 ∙ e) in
            named ∙ ap (λ (i : String). strip i == "") (sym same) ∙ blank.2,
      )

  -- The exception names the environments whose image is blank, one at least; a plan binds
  -- every environment to its image, which is not blank, is needed, and has an environment.
  abbrev pub IsPlanned : Dict String String → (List String) ⊎ BindingPlan → Type 0
  IsPlanned d (inl missing) =
      (missing ≢ []) × ((env : String) → (contains env missing ≡ true) ↔ IsBlank d env)
  IsPlanned d (inr plan) =
      (env image : String)
      → lookup env d ≡ some image
      → ((strip image == "") ≡ false)
        × (lookup env plan.env_to_image ≡ some (strip image))
        × (contains (strip image) plan.images_needed ≡ true)
        × (is_some (lookup (strip image) plan.image_to_env) ≡ true)

  plan_unless_lem :
      (d image_to_env : Dict String String) (missing : List String)
      → IsUnique d
      → missing_images strip d ≡ missing
      → IsPlanned d (plan_unless strip missing d image_to_env)
  unfolding plan_unless Covers contains
  plan_unless_lem d image_to_env (e ∷ missing) u same = (
    λ empty. absurd (cc empty),
    λ env.
        subst (λ (names : List String). (contains env names ≡ true) ↔ IsBlank d env) same
          (missing-IsBlank d env (lookup env d) u refl),
  )
  plan_unless_lem d image_to_env [] u same = λ env image h.
      let start : BindingPlan = record {
        env_to_image = [];
        image_to_env = image_to_env;
        images_needed = keys_set strip image_to_env;
      } in
      let covered = env_covered d start env image h in
      let none_missing : contains env (missing_images strip d) ≡ false =
        nothing env (missing_images strip d) same in
      let bound : stripped (lookup env d) (lookup env start.env_to_image) ≡ some (strip image) =
        ap (λ o. stripped o (lookup env start.env_to_image)) h in
      (
        sym (contains-missing d env image u h) ∙ none_missing,
        env_bound d start env u ∙ bound,
        covered.0,
        covered.1,
      )
    where
      nothing : (env : String) (xs : List String) → xs ≡ [] → contains env xs ≡ false
      nothing env [] e = refl
      nothing env (x ∷ xs) e = absurd (cc e)

  planned :
      (d image_to_env : Dict String String)
      → IsUnique d
      → IsPlanned d (build_binding_plan strip d image_to_env)
  unfolding build_binding_plan lookup
  planned [] image_to_env u = λ env image h. absurd (cc h)
  planned (entry ∷ d) image_to_env u =
      plan_unless_lem (entry ∷ d) image_to_env (missing_images strip (entry ∷ d)) u refl

  env_images-IsUnique :
      (d : Dict String String) (rows : List EnvRow) → IsUnique d → IsUnique (env_images d rows)
  unfolding env_images
  env_images-IsUnique d [] u = u
  env_images-IsUnique d (row ∷ rows) u =
      env_images-IsUnique
        (if row.env_name == "" then d else insert row.env_name (or_blank row.image) d) rows
        (if_elim IsUnique (row.env_name == "") _ _ u
          (insert-IsUnique row.env_name (or_blank row.image) d u))

  pub build_lem :
      (r : Repository) (table : List EnvRow)
      → IsPlanned
          (get_env_image_map r table)
          (build_binding_plan strip (get_env_image_map r table) (get_image_to_env_map r table))
  unfolding get_env_image_map
  build_lem r table =
      planned (get_env_image_map r table) (get_image_to_env_map r table)
        (env_images-IsUnique [] (active_rows r table) tt)
