-- ===== src/Data/Environments.antt =====
-- The table of environments: its rows, the queries of core/data_manager/contracts.py, and what
-- core/data_manager/strategy/sqlite_strategy_impl.py and core/data_manager/manager.py do with them.
-- The table is in the order of its ids, which the database gives.
pub mod Active
pub mod Examples
use safactory.Base.{
  string_eq, nat_eq, lookup, Bool, List, Option, String, [], count_if, drop, false, if◌then◌else◌,
  keep_if, ltb, map, none, not, some, take, true, ℕ, ◌&&◌, ◌++◌, ◌+◌, ◌==◌, ◌||◌, ◌∷◌,
}

-- `JobEnvironment`, less its parameters, which no query reads.
pub record EnvRow : Type 0 where
  pub id : ℕ
  pub job_id : String
  pub env_id : String
  pub env_name : String
  pub image : Option String
  pub group_id : String
  pub finished : Bool
  pub is_deleted : Bool

-- `None` and the empty string are the same in the text fields of a query.
pub record EnvironmentQuery : Type 0 where
  pub job_id : String
  pub env_id : String
  pub after_id : ℕ
  pub offset : ℕ
  pub limit : Option ℕ
  pub finished : Option Bool
  pub is_deleted : Option Bool

unfoldable pub text_matches : String → String → Bool
text_matches wanted text = if wanted == "" then true else text == wanted

unfoldable pub flag_matches : Option Bool → Bool → Bool
flag_matches none flag = true
flag_matches (some true) flag = flag
flag_matches (some false) flag = not flag

unfoldable pub is_after : ℕ → ℕ → Bool
is_after after id = if after == 0 then true else ltb after id

-- `_environment_query`
unfoldable pub query_matches : EnvironmentQuery → EnvRow → Bool
unfolding text_matches flag_matches is_after
query_matches q row =
    text_matches q.job_id row.job_id
    && text_matches q.env_id row.env_id
    && is_after q.after_id row.id
    && flag_matches q.finished row.finished
    && flag_matches q.is_deleted row.is_deleted

unfoldable pub limited {ℓ} : {A : Type ℓ} → Option ℕ → List A → List A
limited none rows = rows
limited (some n) rows = take n rows

-- `list_environment_rows` of the strategy.
unfoldable pub select_rows : List EnvRow → EnvironmentQuery → List EnvRow
unfolding query_matches limited
select_rows table q = limited q.limit (drop q.offset (keep_if (query_matches q) table))

-- `list_environment_refs`: `(id, env_id, env_name)`.
pub list_environment_refs : List EnvRow → EnvironmentQuery → List (ℕ × String × String)
unfolding query_matches limited
list_environment_refs table q =
    map (λ row. (row.id, row.env_id, row.env_name))
      (limited q.limit (drop q.offset (keep_if (query_matches q) table)))

unfoldable pub or_job : String → String → String
or_job own job_id = if job_id == "" then own else job_id

-- `list_environment_rows` of the data manager, whose own job is taken where none is given.
unfoldable pub list_environment_rows : String → List EnvRow → EnvironmentQuery → List EnvRow
unfolding select_rows or_job
list_environment_rows own table q = select_rows table (record q { job_id = or_job own q.job_id })

-- The entries of `updates`; a name that is not allowed is `unknown`.
pub data Update : Type 0 where
  set_env_name set_image set_group_id : String → Update
  set_finished set_is_deleted : Bool → Update
  unknown : String → Update

pub apply_update : Update → EnvRow → EnvRow
apply_update (set_env_name s) row = record row { env_name = s }
apply_update (set_image s) row = record row { image = some s }
apply_update (set_group_id s) row = record row { group_id = s }
apply_update (set_finished b) row = record row { finished = b }
apply_update (set_is_deleted b) row = record row { is_deleted = b }
apply_update (unknown name) row = row

pub apply_updates : List Update → EnvRow → EnvRow
unfolding apply_update
apply_updates [] row = row
apply_updates (u ∷ us) row = apply_updates us (apply_update u row)

pub is_unknown : Update → Bool
is_unknown (unknown name) = true
is_unknown (set_env_name s) = false
is_unknown (set_image s) = false
is_unknown (set_group_id s) = false
is_unknown (set_finished b) = false
is_unknown (set_is_deleted b) = false

pub any_unknown : List Update → Bool
unfolding is_unknown
any_unknown [] = false
any_unknown (u ∷ us) = is_unknown u || any_unknown us

-- The rows of an update: the query without its cursor.
pub update_matches : EnvironmentQuery → EnvRow → Bool
unfolding text_matches flag_matches
update_matches q row =
    text_matches q.job_id row.job_id
    && text_matches q.env_id row.env_id
    && flag_matches q.finished row.finished
    && flag_matches q.is_deleted row.is_deleted

pub updated_rows : EnvironmentQuery → List Update → List EnvRow → List EnvRow
unfolding update_matches apply_updates
updated_rows q us table =
    map (λ row. if update_matches q row then apply_updates us row else row) table

-- How many rows are written; none is the exception for an unknown field.
pub update_environment_rows : List EnvRow → EnvironmentQuery → List Update → List EnvRow × Option ℕ
unfolding any_unknown updated_rows
update_environment_rows table q [] = (table, some 0)
update_environment_rows table q (u ∷ us) =
    if any_unknown (u ∷ us)
    then (table, none)
    else (updated_rows q (u ∷ us) table, some (count_if (update_matches q) table))

pub finished_query : String → String → EnvironmentQuery
finished_query job_id env_id = record {
  job_id = job_id;
  env_id = env_id;
  after_id = 0;
  offset = 0;
  limit = none;
  finished = none;
  is_deleted = some false;
}

pub exactly_one : Option ℕ → Option ℕ
exactly_one none = none
exactly_one (some n) = if n == 1 then some n else none

-- `mark_environment_finished`; none is an exception.
pub mark_environment_finished : String → List EnvRow → String → List EnvRow × Option ℕ
unfolding update_environment_rows finished_query exactly_one
mark_environment_finished own table env_id =
    let (table1, n) =
      update_environment_rows table (finished_query own env_id) (set_finished true ∷ []) in
    (table1, exactly_one n)

-- `insert_environment_rows`, of rows that have their environment ids: the database numbers them from
-- the next id on.
pub number_rows : ℕ → List EnvRow → List EnvRow
number_rows next [] = []
number_rows next (row ∷ rows) = record row { id = next } ∷ number_rows (next + 1) rows

pub with_job : String → EnvRow → EnvRow
unfolding or_job
with_job own row = record row { job_id = or_job own row.job_id }

pub insert_environment_rows : String → ℕ → List EnvRow → List EnvRow → List EnvRow × List String
unfolding number_rows with_job
insert_environment_rows own next table rows =
    (table ++ number_rows next (map (with_job own) rows), map (λ row. row.env_id) rows)
