-- ===== src/Data/WriteBuffer/Flush.antt =====
-- The flushes of core/data_manager/write_buffer.py: what is buffered is taken out and written.
use safactory.Base.{
  string_eq, nat_eq, lookup, Bool, Dict, List, Option, String, [], erase, false, if◌then◌else◌,
  insert, is_some, keep_if, leb, length, ltb, map, none, not, some, true, ℕ, ◌++◌, ◌+◌, ◌∷◌, suc,
  zero,
}
use safactory.Data.WriteBuffer.{
  fields_eq, Orm, FlushTask, Instance, Operation, Stats, UpdateEntry, WriteBuffer, all, create,
  flush_all, flush_model, or_empty, update,
}

-- `{cls: i for i, cls in enumerate(self._flush_order)}`, from an index on.
unfoldable pub order_map_from : ℕ → List String → Dict String ℕ → Dict String ℕ
order_map_from i [] d = d
order_map_from i (c ∷ cs) d = order_map_from (i + 1) cs (insert c i d)

unfoldable pub or_else : ℕ → Option ℕ → ℕ
or_else n none = n
or_else n (some m) = m

-- `order_map.get(m, max_order)`
unfoldable pub priority : List String → String → ℕ
unfolding order_map_from or_else
priority order c = or_else (length order) (lookup c (order_map_from 0 order []))

-- `sorted(models, key=...)`, which is stable.
unfoldable pub place : (String → ℕ) → String → List String → List String
place key c [] = c ∷ []
place key c (d ∷ ds) =
    let rest = place key c ds in if leb (key c) (key d) then c ∷ d ∷ ds else d ∷ rest

unfoldable pub sorted_by : (String → ℕ) → List String → List String
unfolding place
sorted_by key [] = []
sorted_by key (c ∷ cs) = place key c (sorted_by key cs)

unfoldable pub sort_models_by_priority : List String → List String → List String
unfolding sorted_by priority
sort_models_by_priority [] models = models
sort_models_by_priority (o ∷ os) models = sorted_by (priority (o ∷ os)) models

-- `_group_updates_by_fields`
unfoldable pub add_to_group :
    UpdateEntry → Dict (List String) (List UpdateEntry) → Dict (List String) (List UpdateEntry)
unfolding or_empty
add_to_group e grouped =
    insert e.update_fields (or_empty (lookup e.update_fields grouped) ++ (e ∷ [])) grouped

unfoldable pub group_from :
    Dict (List String) (List UpdateEntry) → List UpdateEntry → Dict (List String) (List UpdateEntry)
unfolding add_to_group
group_from grouped [] = grouped
group_from grouped (e ∷ es) = group_from (add_to_group e grouped) es

unfoldable pub group_updates_by_fields : List UpdateEntry → Dict (List String) (List UpdateEntry)
unfolding group_from
group_updates_by_fields entries = group_from [] entries

unfoldable pub unique_field_names : List String
unique_field_names = "record_id" ∷ "session_id" ∷ "env_id" ∷ "uuid" ∷ "uid" ∷ []

-- The first of the names that the model class has.
unfoldable pub first_field : (String → Bool) → List String → Option String
first_field has [] = none
first_field has (f ∷ fs) = if has f then some f else first_field has fs

-- `{value: pk for ...}`
unfoldable pub value_to_pk : Dict String ℕ → List (String × ℕ) → Dict String ℕ
value_to_pk d [] = d
value_to_pk d ((v, p) ∷ rs) = value_to_pk (insert v p d) rs

unfoldable pub count_flush : ℕ → WriteBuffer → WriteBuffer
count_flush n b =
    if ltb 0 n
    then record b { stats = record b.stats { flush_count = b.stats.flush_count + 1 } }
    else b

unfoldable pub add_created : ℕ → Stats → Stats
add_created n stats = record stats { total_create_flushed = stats.total_create_flushed + n }

module _ {W : Type 0} (orm : Orm W) where
  unfoldable pub no_pk : W → Instance → Bool
  no_pk w x = not (is_some (orm.pk w x))

  unfoldable pub set_found : Instance → Option ℕ → W → W
  set_found x none w = w
  set_found x (some p) w = orm.set_pk x p w

  unfoldable pub set_pks : String → Dict String ℕ → List Instance → W → W
  unfolding set_found
  set_pks field pks [] w = w
  set_pks field pks (x ∷ xs) w =
      set_pks field pks xs (set_found x (lookup (orm.get_field w field x) pks) w)

  unfoldable pub with_records : String → List Instance → W × Option (List (String × ℕ)) → W × Bool
  unfolding set_pks value_to_pk
  with_records field xs (w, none) = (w, false)
  with_records field xs (w, some records) = (set_pks field (value_to_pk [] records) xs w, true)

  unfoldable pub lookup_pks : String → List Instance → Option String → W → W × Bool
  unfolding with_records
  lookup_pks model_class xs none w = (w, true)
  lookup_pks model_class xs (some field) w =
      with_records field xs (orm.filter model_class field (map (orm.get_field w field) xs) w)

  unfoldable pub lookup_missing : String → List Instance → W → W × Bool
  unfolding lookup_pks first_field unique_field_names
  lookup_missing model_class [] w = (w, true)
  lookup_missing model_class (x ∷ xs) w =
      lookup_pks model_class (x ∷ xs) (first_field (orm.has_field model_class) unique_field_names) w

  -- `_update_pks_after_bulk_create`; false when the query raises an exception.
  unfoldable pub update_pks_after_bulk_create : String → List Instance → W → W × Bool
  unfolding lookup_missing no_pk
  update_pks_after_bulk_create model_class xs w =
      lookup_missing model_class (keep_if (no_pk w) xs) w

  -- `save` one by one: how many succeed. An exception of one does not stop the others.
  unfoldable pub save_each : List Instance → W → W × ℕ
  save_each [] w = (w, 0)
  save_each (x ∷ xs) w =
      let (w1, saved) = orm.save x w in
      let (w2, n) = save_each xs w1 in (w2, (if saved then 1 else 0) + n)

  unfoldable pub fallback_create : List Instance → Stats × W → (Stats × W) × ℕ
  unfolding save_each add_created
  fallback_create xs (stats, w) =
      let (w1, success) = save_each xs w in ((add_created success stats, w1), success)

  -- The try block of `_flush_creates` and its except.
  unfoldable pub after_bulk_create : String → List Instance → Stats × W → (Stats × W) × ℕ
  unfolding update_pks_after_bulk_create fallback_create add_created
  after_bulk_create model_class xs (stats, w) =
      let counted = add_created (length xs) stats in
      let (w1, found) = update_pks_after_bulk_create model_class xs w in
      if found then ((counted, w1), length xs) else fallback_create xs (counted, w1)

  unfoldable pub write_creates : String → List Instance → Stats × W → (Stats × W) × ℕ
  unfolding after_bulk_create fallback_create
  write_creates model_class xs (stats, w) =
      let (w1, created) = orm.bulk_create model_class xs w in
      if created
      then after_bulk_create model_class xs (stats, w1)
      else fallback_create xs (stats, w1)

  unfoldable pub write_taken : String → List Instance → WriteBuffer × W → (WriteBuffer × W) × ℕ
  unfolding write_creates
  write_taken model_class [] (b, w) = ((b, w), 0)
  write_taken model_class (x ∷ xs) (b, w) =
      let ((stats, w1), n) = write_creates model_class (x ∷ xs) (b.stats, w) in
      ((record b { stats = stats }, w1), n)

  unfoldable pub flush_creates : String → WriteBuffer × W → (WriteBuffer × W) × ℕ
  unfolding write_taken or_empty
  flush_creates model_class (b, w) =
      write_taken model_class (or_empty (lookup model_class b.create_buffers))
        (record b { create_buffers = erase model_class b.create_buffers }, w)

  -- `for inst in instances: await inst.save()`, up to the first exception.
  pub save_all : List Instance → W → W × Bool
  save_all [] w = (w, true)
  save_all (x ∷ xs) w =
      let (w1, saved) = orm.save x w in
      let rest = save_all xs w1 in if saved then rest else (w1, false)

  pub write_group : String → List String → List Instance → W → W × Bool
  unfolding save_all
  write_group model_class [] xs w = save_all xs w
  write_group model_class (f ∷ fs) xs w = orm.bulk_update model_class xs (f ∷ fs) w

  unfoldable pub update_group : String → List String → List Instance → W → W × ℕ
  unfolding write_group save_each
  update_group model_class fields xs w =
      let (w1, written) = write_group model_class fields xs w in
      if written then (w1, length xs) else save_each xs w1

  unfoldable pub update_groups : String → Dict (List String) (List UpdateEntry) → W → W × ℕ
  unfolding update_group
  update_groups model_class [] w = (w, 0)
  update_groups model_class ((fields, entries) ∷ groups) w =
      let (w1, n) = update_group model_class fields (map (λ e. e.instance_) entries) w in
      let (w2, m) = update_groups model_class groups w1 in (w2, n + m)

  unfoldable pub update_taken : String → List UpdateEntry → WriteBuffer × W → (WriteBuffer × W) × ℕ
  unfolding update_groups group_updates_by_fields
  update_taken model_class [] (b, w) = ((b, w), 0)
  update_taken model_class (e ∷ es) (b, w) =
      let (w1, total) = update_groups model_class (group_updates_by_fields (e ∷ es)) w in
      (
        (
          record b {
            stats = record b.stats { total_update_flushed = b.stats.total_update_flushed + total };
          },
          w1,
        ),
        total,
      )

  unfoldable pub flush_updates : String → WriteBuffer × W → (WriteBuffer × W) × ℕ
  unfolding update_taken or_empty
  flush_updates model_class (b, w) =
      update_taken model_class (or_empty (lookup model_class b.update_buffers))
        (record b { update_buffers = erase model_class b.update_buffers }, w)

  unfoldable pub flush_model_unlocked : String → Operation → WriteBuffer × W → (WriteBuffer × W) × ℕ
  unfolding flush_creates flush_updates
  flush_model_unlocked model_class create s = flush_creates model_class s
  flush_model_unlocked model_class update s = flush_updates model_class s
  flush_model_unlocked model_class all s =
      let (s1, n) = flush_creates model_class s in
      let (s2, m) = flush_updates model_class s1 in (s2, n + m)

  unfoldable pub flush_models : List String → Operation → WriteBuffer × W → (WriteBuffer × W) × ℕ
  unfolding flush_model_unlocked
  flush_models [] operation s = (s, 0)
  flush_models (c ∷ cs) operation s =
      let (s1, n) = flush_model_unlocked c operation s in
      let (s2, m) = flush_models cs operation s1 in (s2, n + m)

  -- `(created, updated)`, with the buffer and the world that are left.
  unfoldable pub flush : WriteBuffer × W → (WriteBuffer × W) × ℕ × ℕ
  unfolding flush_models sort_models_by_priority count_flush
  flush (b, w) =
      let creates = sort_models_by_priority b.flush_order (map (λ e. e.0) b.create_buffers) in
      let updates = sort_models_by_priority b.flush_order (map (λ e. e.0) b.update_buffers) in
      let (s1, created) = flush_models creates create (b, w) in
      let ((b2, w2), updated) = flush_models updates update s1 in
      ((count_flush (created + updated) b2, w2), created, updated)

  -- A background task, and the tasks in their order.
  unfoldable pub run_task : FlushTask → WriteBuffer × W → WriteBuffer × W
  unfolding flush flush_model_unlocked
  run_task flush_all s = (flush s).0
  run_task (flush_model c operation) s = (flush_model_unlocked c operation s).0

  unfoldable pub run_tasks : List FlushTask → WriteBuffer × W → WriteBuffer × W
  unfolding run_task
  run_tasks [] s = s
  run_tasks (t ∷ ts) s = run_tasks ts (run_task t s)

  -- `stop` as one step: the tasks that it awaits run one after the other, and what other
  -- coroutines would buffer meanwhile is left out.
  unfoldable pub stop : WriteBuffer × W → (WriteBuffer × W) × ℕ × ℕ
  unfolding run_tasks flush
  stop (b, w) =
      flush (run_tasks b.background_tasks (record b { running = false; background_tasks = [] }, w))

  -- `_periodic_flush`, for so many intervals.
  pub periodic_flush : ℕ → WriteBuffer × W → WriteBuffer × W
  unfolding flush
  periodic_flush zero s = s
  periodic_flush (suc n) s =
      let rest = periodic_flush n (flush s).0 in if s.0.running then rest else s
