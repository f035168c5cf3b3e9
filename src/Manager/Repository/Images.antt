-- ===== src/Manager/Repository/Images.antt =====
-- The images of the environments of a job, by name, and a name for each image.
use safactory.Base.{
  string_eq, nat_eq, Dict, List, Option, String, [], if◌then◌else◌, insert, none, some, ◌==◌, ◌||◌,
  ◌∷◌,
}
use safactory.Data.Environments.{EnvRow, list_environment_rows}
use safactory.Data.Environments.Active.{active_query}
use safactory.Manager.Repository.{Repository}

-- `x or ""`
unfoldable pub or_blank : Option String → String
or_blank none = ""
or_blank (some s) = s

unfoldable pub active_rows : Repository → List EnvRow → List EnvRow
unfolding list_environment_rows
active_rows r table = list_environment_rows r.manager_job_id table (active_query r.job_id 0 none)

-- `{env_name: image for row in rows if env_name}`, where no image is the empty text.
unfoldable pub env_images : Dict String String → List EnvRow → Dict String String
unfolding or_blank
env_images d [] = d
env_images d (row ∷ rows) =
    env_images (if row.env_name == "" then d else insert row.env_name (or_blank row.image) d) rows

unfoldable pub get_env_image_map : Repository → List EnvRow → Dict String String
unfolding env_images active_rows
get_env_image_map r table = env_images [] (active_rows r table)

-- `{image: env_name for row in rows if image and env_name}`
pub image_envs : Dict String String → List EnvRow → Dict String String
unfolding or_blank
image_envs d [] = d
image_envs d (row ∷ rows) =
    image_envs
      (if or_blank row.image == "" || row.env_name == ""
        then d
        else insert (or_blank row.image) row.env_name d)
      rows

pub get_image_to_env_map : Repository → List EnvRow → Dict String String
unfolding image_envs active_rows
get_image_to_env_map r table = image_envs [] (active_rows r table)
