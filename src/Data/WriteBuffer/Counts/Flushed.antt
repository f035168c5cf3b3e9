-- ===== src/Data/WriteBuffer/Counts/Flushed.antt =====
-- The counters of the write buffer after flushes, and when a lookup of primary keys fails.
use safactory.Base.{
  string_eq, lookup, Bool, List, Option, String, [], arith, erase, false, if_elim, if◌then◌else◌,
  is_some, keep_if, length, ltb, map, none, refl, some, subst, sym, true, ℕ, ◌++◌, ◌+◌, ◌∷◌, ◌≡◌,
  ◌≤◌,
}
use safactory.Data.WriteBuffer.{
  fields_eq, FlushTask, Instance, Operation, Orm, Stats, UpdateEntry, WriteBuffer, all, create,
  flush_all, flush_model, init, or_empty, pending_creates, pending_updates, update,
}
use safactory.Data.WriteBuffer.Flush.{
  flush, add_created, after_bulk_create, count_flush, fallback_create, first_field, flush_creates,
  flush_model_unlocked, flush_models, flush_updates, group_updates_by_fields, lookup_missing,
  lookup_pks, no_pk, run_task, save_each, sort_models_by_priority, unique_field_names,
  update_pks_after_bulk_create, update_taken, with_records, write_creates, write_taken,
}
use safactory.Data.WriteBuffer.Sizes.{sum_lengths-erase}
use safactory.Data.WriteBuffer.Grouping.{group_lem}
use safactory.Data.WriteBuffer.Steps.{
  Reach, made, changed, created, flushed, flushed_model, ran, started, updated,
}
use safactory.Data.WriteBuffer.Counts.{
  IsCounted, create-IsCounted, save_each-le, start-IsCounted, update-IsCounted, update_groups-le,
}

module _ {W : Type 0} (orm : Orm W) where
  -- When a bulk create succeeds and the lookup of the primary keys then raises an exception, every
  -- row is saved again: the counter of created rows grows by their number and by the number of the
  -- rows saved again, and only the latter is the answer.
  pub failed_lookup_lem :
      (c : String) (xs : List Instance) (stats : Stats) (w : W)
      → (orm.bulk_create c xs w).1 ≡ true
      → (update_pks_after_bulk_create orm c xs (orm.bulk_create c xs w).0).1 ≡ false
      → let w1 = (update_pks_after_bulk_create orm c xs (orm.bulk_create c xs w).0).0 in
        let r = write_creates orm c xs (stats, w) in
        let saved = (save_each orm xs w1).1 in
        (r.1 ≡ saved)
        × (r.0.0.total_create_flushed ≡ stats.total_create_flushed + length xs + saved)
  unfolding write_creates after_bulk_create fallback_create add_created
  failed_lookup_lem c xs stats w ok failed = ground (arith, ok, failed)

  module _
      (answers : (c f : String) (vs : List String) (w : W)
        → is_some (orm.filter c f vs w).1 ≡ true) where
    with_records-answers :
        (f : String) (xs : List Instance) (r : W × Option (List (String × ℕ)))
        → is_some r.1 ≡ true
        → (with_records orm f xs r).1 ≡ true
    unfolding with_records
    with_records-answers f xs (w, none) h = absurd (cc h)
    with_records-answers f xs (w, some records) h = refl

    lookup_pks-answers :
        (c : String) (xs : List Instance) (f : Option String) (w : W)
        → (lookup_pks orm c xs f w).1 ≡ true
    unfolding lookup_pks
    lookup_pks-answers c xs none w = refl
    lookup_pks-answers c xs (some f) w =
        with_records-answers f xs (orm.filter c f (map (orm.get_field w f) xs) w)
          (answers c f (map (orm.get_field w f) xs) w)

    lookup_missing-answers :
        (c : String) (xs : List Instance) (w : W) → (lookup_missing orm c xs w).1 ≡ true
    unfolding lookup_missing
    lookup_missing-answers c [] w = refl
    lookup_missing-answers c (x ∷ xs) w =
        lookup_pks-answers c (x ∷ xs) (first_field (orm.has_field c) unique_field_names) w

    update_pks-answers :
        (c : String) (xs : List Instance) (w : W)
        → (update_pks_after_bulk_create orm c xs w).1 ≡ true
    unfolding update_pks_after_bulk_create
    update_pks-answers c xs w = lookup_missing-answers c (keep_if (no_pk orm w) xs) w

    abbrev CountsOf : List Instance → Stats → (Stats × W) × ℕ → Type 0
    CountsOf xs stats r = (r.0.0 ≡ add_created r.1 stats) × (r.1 ≤ length xs)

    fallback_counts :
        (xs : List Instance) (stats : Stats) (w : W)
        → CountsOf xs stats (fallback_create orm xs (stats, w))
    unfolding fallback_create
    fallback_counts xs stats w = (refl, save_each-le orm xs w)

    write_counts :
        (c : String) (xs : List Instance) (stats : Stats) (w : W)
        → CountsOf xs stats (write_creates orm c xs (stats, w))
    unfolding write_creates after_bulk_create
    write_counts c xs stats w =
        let q = orm.bulk_create c xs w in
        let u = update_pks_after_bulk_create orm c xs q.0 in
        if_elim (CountsOf xs stats) q.1 _ _
          (subst
            (λ (b : Bool). CountsOf xs stats (
              if b
              then ((add_created (length xs) stats, u.0), length xs)
              else fallback_create orm xs (add_created (length xs) stats, u.0)))
            (sym (update_pks-answers c xs q.0)) (refl, omega arith))
          (fallback_counts xs stats q.0)

    write_taken-IsCounted :
        (c : String) (xs : List Instance) (b : WriteBuffer) (w : W)
        → b.stats.total_create_flushed + (length xs + pending_creates b)
          ≤ b.stats.total_create_buffered
        → b.stats.total_update_flushed + pending_updates b ≤ b.stats.total_update_buffered
        → IsCounted (write_taken orm c xs (b, w)).0.0
    unfolding write_taken pending_creates pending_updates
    write_taken-IsCounted c [] b w h k = (omega (arith, h), k)
    write_taken-IsCounted c (x ∷ xs) b w h k =
        let counts = write_counts c (x ∷ xs) b.stats w in
        let n = (write_creates orm c (x ∷ xs) (b.stats, w)).1 in
        let counted : IsCounted (record b { stats = add_created n b.stats }) = added n counts.1 in
        subst (λ (stats : Stats). IsCounted (record b { stats = stats })) (sym counts.0) counted
      where
        added :
            (n : ℕ) → n ≤ length (x ∷ xs) → IsCounted (record b { stats = add_created n b.stats })
        added n le = (omega (arith, h, le), k)

    creates-IsCounted :
        (c : String) (s : WriteBuffer × W) → IsCounted s.0 → IsCounted (flush_creates orm c s).0.0
    unfolding flush_creates pending_creates pending_updates
    creates-IsCounted c (b, w) i =
        write_taken-IsCounted c (or_empty (lookup c b.create_buffers))
          (record b { create_buffers = erase c b.create_buffers }) w
          (omega (arith, sum_lengths-erase c b.create_buffers, i.0)) i.1

    updates_taken-IsCounted :
        (c : String) (es : List UpdateEntry) (b : WriteBuffer) (w : W)
        → b.stats.total_create_flushed + pending_creates b ≤ b.stats.total_create_buffered
        → b.stats.total_update_flushed + (length es + pending_updates b)
          ≤ b.stats.total_update_buffered
        → IsCounted (update_taken orm c es (b, w)).0.0
    unfolding update_taken pending_creates pending_updates
    updates_taken-IsCounted c [] b w h k = (h, omega (arith, k))
    updates_taken-IsCounted c (e ∷ es) b w h k =
        let groups = group_updates_by_fields (e ∷ es) in
        (h, omega (arith, k, update_groups-le orm c groups w, (group_lem [] (e ∷ es)).1))

    updates-IsCounted :
        (c : String) (s : WriteBuffer × W) → IsCounted s.0 → IsCounted (flush_updates orm c s).0.0
    unfolding flush_updates pending_creates pending_updates
    updates-IsCounted c (b, w) i =
        updates_taken-IsCounted c (or_empty (lookup c b.update_buffers))
          (record b { update_buffers = erase c b.update_buffers }) w i.0
          (omega (arith, sum_lengths-erase c b.update_buffers, i.1))

    flush_model-IsCounted :
        (c : String) (operation : Operation) (s : WriteBuffer × W)
        → IsCounted s.0
        → IsCounted (flush_model_unlocked orm c operation s).0.0
    unfolding flush_model_unlocked
    flush_model-IsCounted c create s i = creates-IsCounted c s i
    flush_model-IsCounted c update s i = updates-IsCounted c s i
    flush_model-IsCounted c all s i =
        updates-IsCounted c (flush_creates orm c s).0 (creates-IsCounted c s i)

    flush_models-IsCounted :
        (cs : List String) (operation : Operation) (s : WriteBuffer × W)
        → IsCounted s.0
        → IsCounted (flush_models orm cs operation s).0.0
    unfolding flush_models
    flush_models-IsCounted [] operation s i = i
    flush_models-IsCounted (c ∷ cs) operation s i =
        flush_models-IsCounted cs operation (flush_model_unlocked orm c operation s).0
          (flush_model-IsCounted c operation s i)

    flush-IsCounted : (s : WriteBuffer × W) → IsCounted s.0 → IsCounted (flush orm s).0.0
    unfolding flush count_flush pending_creates pending_updates
    flush-IsCounted (b, w) i =
        let creates = sort_models_by_priority b.flush_order (map (λ e. e.0) b.create_buffers) in
        let updates = sort_models_by_priority b.flush_order (map (λ e. e.0) b.update_buffers) in
        let q1 = flush_models orm creates create (b, w) in
        let q2 = flush_models orm updates update q1.0 in
        let i2 =
          flush_models-IsCounted updates update q1.0
            (flush_models-IsCounted creates create (b, w) i) in
        if_elim IsCounted (ltb 0 (q1.1 + q2.1)) _ _ i2 i2

    task-IsCounted :
        (t : FlushTask) (s : WriteBuffer × W) → IsCounted s.0 → IsCounted (run_task orm t s).0
    unfolding run_task
    task-IsCounted flush_all s i = flush-IsCounted s i
    task-IsCounted (flush_model c operation) s i = flush_model-IsCounted c operation s i

    -- In every state that is reached, where the lookup of the primary keys never raises an
    -- exception, the rows counted as created and those still to be created are together no more than
    -- the rows that were buffered to be created, and so for the updates.
    pub Reach-IsCounted :
        {size : ℕ} {auto : Bool} {order : List String} {s : WriteBuffer × W}
        → Reach orm size auto order s
        → IsCounted s.0
    unfolding init pending_creates pending_updates
    Reach-IsCounted (made w) = (omega arith, omega arith)
    Reach-IsCounted (started {b = b} r) = start-IsCounted b (Reach-IsCounted r)
    Reach-IsCounted (created {b = b} x r) = create-IsCounted x b (Reach-IsCounted r)
    Reach-IsCounted (updated {b = b} {w = w} x fields r) =
        update-IsCounted (orm.same w) x fields b (Reach-IsCounted r)
    Reach-IsCounted (flushed_model {s = s} c operation r) =
        flush_model-IsCounted c operation s (Reach-IsCounted r)
    Reach-IsCounted (flushed {s = s} r) = flush-IsCounted s (Reach-IsCounted r)
    Reach-IsCounted (ran {b = b} {w = w} before after t e r) =
        task-IsCounted t (record b { background_tasks = before ++ after }, w) (Reach-IsCounted r)
    Reach-IsCounted (changed w' r) = Reach-IsCounted r
