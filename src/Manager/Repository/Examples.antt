-- ===== src/Manager/Repository/Examples.antt =====
-- Tests of the repository, and its theorems at a concrete table.
use safactory.Base.{
  string_eq, nat_eq, List, Option, [], arith, false, inr, map, none, refl, some, take, true, ℕ, ◌∷◌,
  ◌≡◌,
}
use safactory.Data.Environments.{
  EnvRow, flag_matches, is_after, limited, list_environment_rows, or_job, query_matches,
  select_rows, text_matches,
}
use safactory.Data.Environments.Examples.{three_rows}
use safactory.Manager.Repository.{
  Repository, Moment, after_fetch, answered, await_fetch, drain_buffer, end_round, failed,
  fetch_args, fetch_rows_async, fetch_rows_snapshot, get_or_start_fetch_task, go_on, init,
  is_pending, next_last_seen_id, no_rows, or_cached, refill, reserve_loop, reserve_round,
  reserve_rounds, reserve_rows, same_args, take_fetched, update_stop_state, is_exhausted,
}
use safactory.Manager.Repository.Queue.{row_id, IsSound, pending}
use safactory.Manager.Repository.Reserving.{reserve_rows_lem, Reserved}
use safactory.Manager.Repository.Failures.{failed_fetch_lem}

abbrev repository : Repository
repository = init "j" "" true

abbrev answers_table : ℕ → ℕ → Moment
answers_table i n = record { reply = answered three_rows; checker = some true }

abbrev fails : ℕ → Moment
fails n = record { reply = failed; checker = none }

-- What is reserved of two rows, and then of what is left.
abbrev reserved_ids : Option (Repository × Option (List EnvRow)) → List ℕ
reserved_ids none = []
reserved_ids (some (r, none)) = []
reserved_ids (some (r, some rows)) = map row_id rows

two_reserved :
    reserved_ids (reserve_rows 1 5 1 false answers_table (λ n. true) repository) ≡ 1 ∷ 3 ∷ []
unfolding reserve_rows reserve_rounds reserve_round reserve_loop end_round drain_buffer refill go_on
    after_fetch fetch_rows_async fetch_args await_fetch take_fetched fetch_rows_snapshot no_rows
    or_cached update_stop_state get_or_start_fetch_task is_pending same_args next_last_seen_id init
    list_environment_rows select_rows query_matches text_matches flag_matches is_after limited
    or_job
two_reserved = refl

-- A timed-out fetch stays pending, and is not started again by the next call.
fetch_shared :
    let args = fetch_args 4 repository in
    (get_or_start_fetch_task args (get_or_start_fetch_task args repository).0).1 ≡ false
unfolding get_or_start_fetch_task is_pending same_args fetch_args init
fetch_shared = refl

init-IsSound : IsSound three_rows repository
unfolding init
init-IsSound = (λ h. absurd (cc h), λ h. absurd (cc h))

reserve_rows_lem_example :
    Reserved three_rows 2
      (pending three_rows repository)
      (reserve_rows 1 2 1 false answers_table (λ n. true) repository)
reserve_rows_lem_example =
    reserve_rows_lem three_rows 1 2 1 false answers_table (λ n. true) repository
      (omega arith, (omega arith, (omega arith, tt))) (λ i n. refl) (0, omega arith, inr refl)
      init-IsSound

-- A repository whose producer is done, and which has read all rows.
abbrev read_up : Repository
read_up = record repository { last_seen_id = 3; db_processing_done_cached = true }

exhausted_when_read : (is_exhausted read_up).1 ≡ true
unfolding is_exhausted update_stop_state init
exhausted_when_read = refl

-- A row is in the buffer, and two are asked for.
abbrev buffering : Repository
buffering = record repository { row_buffer = take 1 three_rows; last_seen_id = 1 }

failed_fetch_lem_example :
    let out = reserve_round 2 4 fails buffering in
    (out.1 ≡ none) × (out.0.row_buffer ≡ []) × (out.0.last_seen_id ≡ buffering.last_seen_id)
unfolding init
failed_fetch_lem_example = failed_fetch_lem 2 4 fails buffering (omega arith) refl refl
