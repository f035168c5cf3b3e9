-- ===== src/Manager/ActorPool/Examples.antt =====
-- Tests of the actor pool, and its theorems at a concrete run.
use safactory.Base.{
  none, ◌+◌, string_eq, nat_eq, lookup, List, String, [], arith, count_if, erase, false,
  if◌then◌else◌, insert, min, refl, true, ℕ, ◌∷◌, ◌≡◌,
}
use safactory.Manager.Keys.{key_eq}
use safactory.Manager.Repository.Images.{or_blank}
use safactory.Data.Environments.{EnvRow}
use safactory.Data.Environments.Examples.{env_row}
use safactory.Manager.ActorPool.{
  start_reserved, ActorPool, PoolEntry, allocated, busy, deficit, ensure_round, fill_done,
  first_text, init, is_valid_row, no_refill, not_in_pool, plan_refill, refill, release_entry,
  reserves, resolve_image, row_key, schedule_release, start_fill, start_fills, started_or_reserved,
  take_retry_rows, unless_error, unless_refused,
}
use safactory.Manager.ActorPool.Capacity.{
  Reach, allocates, ensure_reserves, reserved_starts, fill_ends, made, stepped,
}
use safactory.Manager.ActorPool.Capacity.Bounded.{Reach-IsRoomy, IsRoomy}
use safactory.Manager.ActorPool.Retries.{cancel_all_lem, waiting, cancel_all, has_row_key, is_open}

abbrev same_text : String → String
same_text s = s

-- Two rows are started in a pool of two, and the first is allocated.
abbrev two_tasks : List (ℕ × EnvRow)
two_tasks = (1, env_row 1 "a" "x" false) ∷ (2, env_row 2 "b" "" false) ∷ []

abbrev filling : ActorPool
filling = start_reserved same_text two_tasks (init 2)

abbrev entry_a : PoolEntry
entry_a = record { env_name = "a"; env_id = "a"; resource_id = 7 }

abbrev filled : ActorPool
filled = fill_done 1 (allocated entry_a filling).0

full : plan_refill filled ≡ no_refill
unfolding plan_refill unless_error busy not_in_pool start_reserved start_fills start_fill row_key
    allocated fill_done insert lookup key_eq
full = refl

refill_after_release : plan_refill (release_entry ("a", "a") true filled) ≡ refill
unfolding plan_refill unless_error busy not_in_pool start_reserved start_fills start_fill row_key
    allocated fill_done insert lookup key_eq release_entry schedule_release erase
refill_after_release = refl

no_image : is_valid_row same_text (env_row 2 "b" "" false) (init 2) ≡ false
unfolding is_valid_row resolve_image first_text or_blank lookup
no_image = refl

one_reserved : (ensure_round (record filled { pool_size = 3 })).1 ≡ reserves 1
unfolding ensure_round unless_refused started_or_reserved take_retry_rows deficit busy not_in_pool
    start_reserved start_fills start_fill row_key allocated fill_done insert lookup key_eq
one_reserved = refl

reached_filled : Reach same_text 2 (filled, none)
unfolding start_reserved start_fills start_fill row_key deficit busy not_in_pool key_eq ensure_round
    unless_refused started_or_reserved take_retry_rows
reached_filled =
    stepped
      (stepped
        (stepped (stepped made (ensure_reserves (init 2) (init 2) 2 refl))
          (reserved_starts (init 2) 2 two_tasks (omega arith) (refl, (refl, tt))))
        (allocates filling none entry_a (omega arith)))
      (fill_ends (allocated entry_a filling).0 none 1)

Reach-IsRoomy_example : IsRoomy 0 filled
Reach-IsRoomy_example = Reach-IsRoomy reached_filled

abbrev cancelled_thrice : List EnvRow
cancelled_thrice = env_row 1 "a" "x" false ∷ env_row 1 "a" "x" false ∷ env_row 1 "a" "x" false ∷ []

cancel_all_lem_example :
    waiting same_text ("a", "a") (cancel_all same_text cancelled_thrice (init 2)) ≡ (
      0
      + (if is_open (init 2)
          then min 2 (count_if (has_row_key same_text ("a", "a")) cancelled_thrice)
          else 0))
unfolding lookup
cancel_all_lem_example = cancel_all_lem same_text ("a", "a") cancelled_thrice (init 2) refl
