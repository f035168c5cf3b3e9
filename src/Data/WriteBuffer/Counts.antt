-- ===== src/Data/WriteBuffer/Counts.antt =====
-- The counters of the write buffer against what is buffered.
pub mod Flushed
use safactory.Base.{
  string_eq, lookup, Bool, Dict, List, Option, String, [], ap, arith, if_elim, leb, length, map,
  not, refl, suc, ℕ, ◌&&◌, ◌+◌, ◌∷◌, ◌≡◌, ◌≤◌, erase, false, if◌then◌else◌, is_some, keep_if, ltb,
  none, some, subst, sym, true, ◌++◌,
}
use safactory.Data.WriteBuffer.{
  fields_eq, sum_lengths, Instance, Operation, Orm, UpdateEntry, WriteBuffer, append_create,
  append_update, buffer_create, buffer_update, create, create_len, flush_if_full, is_in, or_empty,
  pending_creates, pending_updates, start, start_if_needed, update, update_len, FlushTask, Stats,
  all, flush_all, flush_model, init,
}
use safactory.Data.WriteBuffer.Flush.{
  save_each, update_group, update_groups, write_group, add_created, after_bulk_create, count_flush,
  fallback_create, first_field, flush, flush_creates, flush_model_unlocked, flush_models,
  flush_updates, group_updates_by_fields, lookup_pks, no_pk, run_task, sort_models_by_priority,
  unique_field_names, update_pks_after_bulk_create, update_taken, with_records, write_creates,
  write_taken,
}
use safactory.Data.WriteBuffer.Sizes.{sum_lengths-append, sum_lengths-erase}

-- No more is counted as written than was buffered and is not buffered any more.
abbrev pub IsCounted : WriteBuffer → Type 0
IsCounted b =
    (b.stats.total_create_flushed + pending_creates b ≤ b.stats.total_create_buffered)
    × (b.stats.total_update_flushed + pending_updates b ≤ b.stats.total_update_buffered)

pub start-IsCounted : (b : WriteBuffer) → IsCounted b → IsCounted (start b)
unfolding start pending_creates pending_updates
start-IsCounted b i = if_elim IsCounted b.running _ _ i i

start_if_needed-IsCounted : (b : WriteBuffer) → IsCounted b → IsCounted (start_if_needed b)
unfolding start_if_needed
start_if_needed-IsCounted b i =
    if_elim IsCounted (b.auto_start && not b.running) _ _ (start-IsCounted b i) i

flush_if_full-IsCounted :
    (n : ℕ) (c : String) (operation : Operation) (b : WriteBuffer)
    → IsCounted b
    → IsCounted (flush_if_full n c operation b)
unfolding flush_if_full pending_creates pending_updates
flush_if_full-IsCounted n c operation b i = if_elim IsCounted (leb b.buffer_size n) _ _ i i

append_create-IsCounted :
    (x : Instance) (b : WriteBuffer) → IsCounted b → IsCounted (append_create x b)
unfolding append_create pending_creates pending_updates
append_create-IsCounted x b i =
    (omega (arith, sum_lengths-append x.model_class x b.create_buffers, i.0), i.1)

append_update-IsCounted :
    (x : Instance) (fields : List String) (b : WriteBuffer)
    → IsCounted b
    → IsCounted (append_update x fields b)
unfolding append_update pending_creates pending_updates
append_update-IsCounted x fields b i =
    let entry : UpdateEntry = record { instance_ = x; update_fields = fields } in
    (i.0, omega (arith, sum_lengths-append x.model_class entry b.update_buffers, i.1))

pub create-IsCounted :
    (x : Instance) (b : WriteBuffer) → IsCounted b → IsCounted (buffer_create x b)
unfolding buffer_create
create-IsCounted x b i =
    let b1 = append_create x (start_if_needed b) in
    flush_if_full-IsCounted (create_len x.model_class b1) x.model_class create b1
      (append_create-IsCounted x (start_if_needed b) (start_if_needed-IsCounted b i))

pub update-IsCounted :
    (same : Instance → Instance → Bool) (x : Instance) (fields : Option (List String))
    (b : WriteBuffer)
    → IsCounted b
    → IsCounted (buffer_update same x fields b)
unfolding buffer_update
update-IsCounted same x fields b i =
    let b1 = start_if_needed b in
    let i1 = start_if_needed-IsCounted b i in
    let b2 = append_update x (or_empty fields) b1 in
    if_elim IsCounted (is_in same x (or_empty (lookup x.model_class b1.create_buffers))) b1
      (flush_if_full (update_len x.model_class b2) x.model_class update b2) i1
      (flush_if_full-IsCounted (update_len x.model_class b2) x.model_class update b2
        (append_update-IsCounted x (or_empty fields) b1 i1))

module _ {W : Type 0} (orm : Orm W) where
  pub save_each-le : (xs : List Instance) (w : W) → (save_each orm xs w).1 ≤ length xs
  unfolding save_each
  save_each-le [] w = omega arith
  save_each-le (x ∷ xs) w = ground (arith, save_each-le xs (orm.save x w).0)

  update_group-le :
      (c : String) (fields : List String) (xs : List Instance) (w : W)
      → (update_group orm c fields xs w).1 ≤ length xs
  unfolding update_group
  update_group-le c fields xs w =
      let q = write_group orm c fields xs w in
      if_elim (λ (r : W × ℕ). r.1 ≤ length xs) q.1 (q.0, length xs) (save_each orm xs q.0)
        (omega arith) (save_each-le xs q.0)

  pub update_groups-le :
      (c : String) (groups : Dict (List String) (List UpdateEntry)) (w : W)
      → (update_groups orm c groups w).1 ≤ sum_lengths groups
  unfolding update_groups sum_lengths
  update_groups-le c [] w = omega arith
  update_groups-le c ((fields, entries) ∷ groups) w =
      let xs = map (λ e. e.instance_) entries in
      let w1 = (update_group orm c fields xs w).0 in
      omega (
        arith,
        update_group-le c fields xs w,
        length-instances entries,
        update_groups-le c groups w1,
      )
    where
      length-instances : (es : List UpdateEntry) → length (map (λ e. e.instance_) es) ≡ length es
      length-instances [] = refl
      length-instances (e ∷ es) = ap suc (length-instances es)
