-- ===== src/Data/WriteBuffer/Examples.antt =====
-- Tests of the write buffer, and its theorems at a concrete mapper and database.
use safactory.Base.{
  string_eq, nat_eq, lookup, Bool, Dict, List, String, [], false, if◌then◌else◌, insert, none, some,
  true, ℕ, ◌++◌, ◌==◌, ◌∷◌, arith, erase, length, refl, ◌+◌, ◌≡◌,
}
use safactory.Data.WriteBuffer.{
  fields_eq, sum_lengths, WriteBuffer, Instance, Orm, buffer_create, init, UpdateEntry,
  append_create, buffer_update, create_len, flush_if_full, flush_task_for, or_empty,
  pending_creates, pending_updates, start, start_if_needed,
}
use safactory.Data.WriteBuffer.Flush.{
  flush, add_created, after_bulk_create, count_flush, first_field, flush_creates,
  flush_model_unlocked, flush_models, flush_updates, group_updates_by_fields, lookup_missing,
  lookup_pks, no_pk, or_else, order_map_from, place, priority, save_each, set_found, set_pks,
  sort_models_by_priority, sorted_by, stop, unique_field_names, update_pks_after_bulk_create,
  update_taken, value_to_pk, with_records, write_creates, write_taken,
}
use safactory.Data.WriteBuffer.Grouping.{group_lem, entries_for, unless_empty}
use safactory.Data.WriteBuffer.Draining.{stop_lem}
use safactory.Data.WriteBuffer.Steps.{Reach, created, flushed, made, updated}
use safactory.Data.WriteBuffer.Counts.{IsCounted}
use safactory.Data.WriteBuffer.Counts.Flushed.{failed_lookup_lem, Reach-IsCounted}
use safactory.Data.WriteBuffer.Scheduled.{IsScheduled}
use safactory.Data.WriteBuffer.Scheduled.Flushed.{Reach-IsScheduled}
use safactory.Data.WriteBuffer.Skipping.{update-create, BufferCall, buffer_all, creates, updates}

-- A table of the rows in the order in which they are written, and the primary keys of objects.

abbrev World : Type 0
World = List Instance × Dict ℕ ℕ

abbrev record_id : Instance → String
record_id x = if x.handle == 1 then "r1" else "r2"

-- A mapper that writes everything, and whose query of primary keys answers or fails.
abbrev mapper : Bool → Orm World
mapper works = record {
  bulk_create = λ c xs w. ((w.0 ++ xs, w.1), true);
  bulk_update = λ c xs fields w. (w, true);
  save = λ x w. ((w.0 ++ (x ∷ []), insert x.handle 9 w.1), true);
  filter = λ c f vs w. (w, if works then some (("r1", 1) ∷ ("r2", 2) ∷ []) else none);
  has_field = λ c f. f == "record_id";
  get_field = λ w f x. record_id x;
  pk = λ w x. lookup x.handle w.1;
  set_pk = λ x p w. (w.0, insert x.handle p w.1);
  same = λ w x y. false;
}

abbrev row1 : Instance
row1 = record { handle = 1; model_class = "Step" }

abbrev row2 : Instance
row2 = record { handle = 2; model_class = "Step" }

abbrev job : Instance
job = record { handle = 3; model_class = "Job" }

abbrev buffers : WriteBuffer
buffers =
    buffer_create job (buffer_create row2 (buffer_create row1 (init 2 true ("Job" ∷ "Step" ∷ []))))

parents_first : (flush (mapper true) (buffers, ([], []))).0.1.0 ≡ job ∷ row1 ∷ row2 ∷ []
unfolding flush flush_models flush_model_unlocked flush_creates flush_updates write_taken
    update_taken write_creates after_bulk_create update_pks_after_bulk_create lookup_missing
    lookup_pks with_records set_pks set_found value_to_pk first_field unique_field_names no_pk
    add_created count_flush sort_models_by_priority sorted_by place priority order_map_from or_else
    or_empty buffer_create append_create start_if_needed start create_len flush_if_full
    flush_task_for init lookup insert erase
parents_first = refl

keys_set :
    lookup 2 (update_pks_after_bulk_create (mapper true) "Step" (row1 ∷ row2 ∷ []) ([], [])).0.1
    ≡ some 2
unfolding update_pks_after_bulk_create lookup_missing lookup_pks with_records set_pks set_found
    value_to_pk first_field unique_field_names no_pk lookup insert
keys_set = refl

abbrev update_of : List String → Instance → UpdateEntry
update_of fields x = record { instance_ = x; update_fields = fields }

group_lem_example :
    let es =
      update_of ("reward" ∷ []) row1 ∷ update_of [] job ∷ update_of ("reward" ∷ []) row2 ∷ [] in
    (lookup ("reward" ∷ []) (group_updates_by_fields es)
      ≡ unless_empty (entries_for ("reward" ∷ []) es))
    × (sum_lengths (group_updates_by_fields es) ≡ length es)
group_lem_example =
    group_lem ("reward" ∷ [])
      (update_of ("reward" ∷ []) row1 ∷ update_of [] job ∷ update_of ("reward" ∷ []) row2 ∷ [])

stop_lem_example :
    let b = (stop (mapper true) (buffers, ([], []))).0.0 in
    (pending_creates b ≡ 0)
    × (pending_updates b ≡ 0)
    × (b.background_tasks ≡ [])
    × (b.running ≡ false)
stop_lem_example = stop_lem (mapper true) (buffers, ([], []))

failed_lookup_lem_example :
    let w1 =
      (update_pks_after_bulk_create
        (mapper false)
        "Step"
        (row1 ∷ row2 ∷ [])
        (row1 ∷ row2 ∷ [], [])).0 in
    let r = write_creates (mapper false) "Step" (row1 ∷ row2 ∷ []) (buffers.stats, ([], [])) in
    let saved = (save_each (mapper false) (row1 ∷ row2 ∷ []) w1).1 in
    (r.1 ≡ saved)
    × (r.0.0.total_create_flushed
        ≡ buffers.stats.total_create_flushed + length (row1 ∷ row2 ∷ []) + saved)
unfolding update_pks_after_bulk_create lookup_missing lookup_pks with_records first_field
    unique_field_names no_pk lookup
failed_lookup_lem_example =
    failed_lookup_lem (mapper false) "Step" (row1 ∷ row2 ∷ []) buffers.stats ([], []) refl refl

-- Another row and an update of it come between the create of a row and its update.
abbrev between : List BufferCall
between = creates row2 ∷ updates (λ x y. false) row2 none ∷ []

update-create_example :
    buffer_update
      (λ x y. false)
      row1
      (some ("reward" ∷ []))
      (buffer_all between (buffer_create row1 buffers))
    ≡ buffer_all between (buffer_create row1 buffers)
update-create_example = update-create (λ x y. false) row1 (some ("reward" ∷ [])) between buffers

-- Two rows are buffered, of which the second fills the buffer, one is updated, and all is flushed.
abbrev reached :
    Reach
      (mapper true)
      2
      true
      ("Job" ∷ "Step" ∷ [])
      (flush (mapper true) (
        buffer_update
            (λ x y. false)
            row1
            none
            (buffer_create row2 (buffer_create row1 (init 2 true ("Job" ∷ "Step" ∷ [])))),
        ([], []),
      )).0
reached = flushed (updated row1 none (created row2 (created row1 (made ([], [])))))

Reach-IsCounted_example :
    IsCounted
      (flush (mapper true) (
        buffer_update
            (λ x y. false)
            row1
            none
            (buffer_create row2 (buffer_create row1 (init 2 true ("Job" ∷ "Step" ∷ [])))),
        ([], []),
      )).0.0
Reach-IsCounted_example = Reach-IsCounted (mapper true) (λ c f vs w. refl) reached

Reach-IsScheduled_example :
    IsScheduled
      (flush (mapper true) (
        buffer_update
            (λ x y. false)
            row1
            none
            (buffer_create row2 (buffer_create row1 (init 2 true ("Job" ∷ "Step" ∷ [])))),
        ([], []),
      )).0.0
Reach-IsScheduled_example =
    Reach-IsScheduled (mapper true) 2 true ("Job" ∷ "Step" ∷ []) (omega arith) reached
