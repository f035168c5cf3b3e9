-- ===== src/Manager/BindingPlan.antt =====
-- manager/binding_plan.py: which image each environment runs in, and which images are needed.
pub mod Planned
pub mod Examples
use safactory.Base.{
  string_eq, lookup, Dict, List, Option, String, [], add, if◌then◌else◌, inl, inr, insert, none,
  some, ◌==◌, ◌∷◌, ◌⊎◌,
}

pub record BindingPlan : Type 0 where
  pub env_to_image : Dict String String
  pub image_to_env : Dict String String
  pub images_needed : List String

-- `(image or "").strip()`, where the stripping of Python's strings is a parameter.
module _ (strip : String → String) where
  -- The environments without an image.
  pub missing_images : Dict String String → List String
  missing_images [] = []
  missing_images ((env, image) ∷ d) =
      let rest = missing_images d in if strip image == "" then env ∷ rest else rest

  -- `set(image_to_env.keys())`
  pub keys_set : Dict String String → List String
  keys_set [] = []
  keys_set ((image, env) ∷ d) = add image (keys_set d)

  pub keep_first : String → String → Option String → Dict String String → Dict String String
  keep_first image env none d = insert image env d
  keep_first image env (some other) d = d

  -- One round of the loop over the environments.
  pub bind_env : String → String → BindingPlan → BindingPlan
  unfolding keep_first
  bind_env env image plan = record {
    env_to_image = insert env image plan.env_to_image;
    image_to_env = keep_first image env (lookup image plan.image_to_env) plan.image_to_env;
    images_needed = add image plan.images_needed;
  }

  pub bind_envs : Dict String String → BindingPlan → BindingPlan
  unfolding bind_env
  bind_envs [] plan = plan
  bind_envs ((env, image) ∷ d) plan = bind_envs d (bind_env env (strip image) plan)

  -- The plan, or the environments that the exception names.
  pub plan_unless :
      List String → Dict String String → Dict String String → (List String) ⊎ BindingPlan
  unfolding bind_envs keys_set
  plan_unless (env ∷ missing) env_image_map image_to_env = inl (env ∷ missing)
  plan_unless [] env_image_map image_to_env = inr (
      bind_envs env_image_map (record {
        env_to_image = [];
        image_to_env = image_to_env;
        images_needed = keys_set image_to_env;
      }))

  pub build_binding_plan : Dict String String → Dict String String → (List String) ⊎ BindingPlan
  unfolding plan_unless missing_images
  build_binding_plan [] image_to_env =
      inr (record { env_to_image = []; image_to_env = []; images_needed = [] })
  build_binding_plan (entry ∷ env_image_map) image_to_env =
      plan_unless (missing_images (entry ∷ env_image_map)) (entry ∷ env_image_map) image_to_env
