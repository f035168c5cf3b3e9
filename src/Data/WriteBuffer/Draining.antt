-- ===== src/Data/WriteBuffer/Draining.antt =====
-- What a flush leaves in the buffers.
use safactory.Base.{
  string_eq, lookup, Dict, List, String, [], ap, arith, contains, erase, false, if_elim, is_some,
  lookup-erase, ltb, map, refl, true, ℕ, ◌∙◌, ◌∷◌, ◌≡◌, ◌+◌, subst, sym,
}
use safactory.Data.WriteBuffer.{
  sum_lengths, Instance, Orm, UpdateEntry, WriteBuffer, create, or_empty, pending_creates,
  pending_updates, update, FlushTask, all, flush_all, flush_model,
}
use safactory.Data.WriteBuffer.Flush.{
  flush, count_flush, flush_creates, flush_model_unlocked, flush_models, flush_updates,
  sort_models_by_priority, stop, update_taken, write_taken, run_task, run_tasks,
}
use safactory.Data.WriteBuffer.Order.{contains-sort}

erase_all {ℓ} : {V : Type ℓ} → List String → Dict String V → Dict String V
erase_all [] d = d
erase_all (c ∷ cs) d = erase_all cs (erase c d)

-- A dict all of whose keys are erased is empty.
erase_all-empty {ℓ} :
    {V : Type ℓ} (cs : List String) (d : Dict String V)
    → ((k : String) → is_some (lookup k d) ≡ true → contains k cs ≡ true)
    → erase_all cs d ≡ []
unfolding erase_all contains lookup
erase_all-empty [] [] h = refl
erase_all-empty [] ((k, v) ∷ d) h = absurd (cc (h k (ground (arith, string_eq.beq_iff k k))))
erase_all-empty (c ∷ cs) d h =
    erase_all-empty cs (erase c d) (λ k found. ground (arith, h k, lookup-erase c k d))

has_key-keys {ℓ} :
    {V : Type ℓ} (k : String) (d : Dict String V)
    → is_some (lookup k d) ≡ true
    → contains k (map (λ e. e.0) d) ≡ true
unfolding lookup contains
has_key-keys k [] h = absurd (cc h)
has_key-keys k ((j, v) ∷ d) h = ground (arith, has_key-keys k d)

drained {ℓ} :
    {V : Type ℓ} (order : List String) (d : Dict String V)
    → erase_all (sort_models_by_priority order (map (λ e. e.0) d)) d ≡ []
drained order d =
    erase_all-empty (sort_models_by_priority order (map (λ e. e.0) d)) d
      (λ k found. contains-sort order k (map (λ e. e.0) d) ∙ has_key-keys k d found)

-- All but the buffers and the counters is the same.
abbrev pub SameSettings : WriteBuffer → WriteBuffer → Type 0
SameSettings b b1 = b1 ≡ record b {
  create_buffers = b1.create_buffers;
  update_buffers = b1.update_buffers;
  stats = b1.stats;
}

module _ {W : Type 0} (orm : Orm W) where
  -- A flush of the creates takes one buffer away, and changes the counters at most.
  pub flush_creates_lem :
      (c : String) (s : WriteBuffer × W)
      → let s1 = (flush_creates orm c s).0.0 in
        s1 ≡ record s.0 { create_buffers = erase c s.0.create_buffers; stats = s1.stats }
  unfolding flush_creates write_taken
  flush_creates_lem c (b, w) = taken_lem (or_empty (lookup c b.create_buffers)) b w c
    where
      taken_lem :
          (xs : List Instance) (b : WriteBuffer) (w : W) (c : String)
          → let t = record b { create_buffers = erase c b.create_buffers } in
            let s1 = (write_taken orm c xs (t, w)).0.0 in s1 ≡ record t { stats = s1.stats }
      taken_lem [] b w c = refl
      taken_lem (x ∷ xs) b w c = refl

  pub flush_updates_lem :
      (c : String) (s : WriteBuffer × W)
      → let s1 = (flush_updates orm c s).0.0 in
        s1 ≡ record s.0 { update_buffers = erase c s.0.update_buffers; stats = s1.stats }
  unfolding flush_updates update_taken
  flush_updates_lem c (b, w) = taken_lem (or_empty (lookup c b.update_buffers)) b w c
    where
      taken_lem :
          (es : List UpdateEntry) (b : WriteBuffer) (w : W) (c : String)
          → let t = record b { update_buffers = erase c b.update_buffers } in
            let s1 = (update_taken orm c es (t, w)).0.0 in s1 ≡ record t { stats = s1.stats }
      taken_lem [] b w c = refl
      taken_lem (e ∷ es) b w c = refl

  flush_models-create :
      (cs : List String) (s : WriteBuffer × W)
      → let s1 = (flush_models orm cs create s).0.0 in
        s1 ≡ record s.0 { create_buffers = erase_all cs s.0.create_buffers; stats = s1.stats }
  unfolding flush_models flush_model_unlocked erase_all
  flush_models-create [] s = refl
  flush_models-create (c ∷ cs) s =
      let s1 = (flush_creates orm c s).0 in
      let s2 = (flush_models orm cs create s1).0.0 in
      flush_models-create cs s1
      ∙ ap
          (λ (b : WriteBuffer). record b {
            create_buffers = erase_all cs b.create_buffers;
            stats = s2.stats;
          })
          (flush_creates_lem c s)

  flush_models-update :
      (cs : List String) (s : WriteBuffer × W)
      → let s1 = (flush_models orm cs update s).0.0 in
        s1 ≡ record s.0 { update_buffers = erase_all cs s.0.update_buffers; stats = s1.stats }
  unfolding flush_models flush_model_unlocked erase_all
  flush_models-update [] s = refl
  flush_models-update (c ∷ cs) s =
      let s1 = (flush_updates orm c s).0 in
      let s2 = (flush_models orm cs update s1).0.0 in
      flush_models-update cs s1
      ∙ ap
          (λ (b : WriteBuffer). record b {
            update_buffers = erase_all cs b.update_buffers;
            stats = s2.stats;
          })
          (flush_updates_lem c s)

  count_flush_lem :
      (n : ℕ) (b : WriteBuffer) → count_flush n b ≡ record b { stats = (count_flush n b).stats }
  unfolding count_flush
  count_flush_lem n b =
      if_elim (λ (x : WriteBuffer). x ≡ record b { stats = x.stats }) (ltb 0 n) _ b refl refl

  -- A flush empties both buffers, whatever the mapper answers, and changes nothing else of the
  -- write buffer but its counters.
  pub flush_lem :
      (s : WriteBuffer × W)
      → let s1 = (flush orm s).0.0 in
        s1 ≡ record s.0 { create_buffers = []; update_buffers = []; stats = s1.stats }
  unfolding flush
  flush_lem (b, w) =
      let creates = sort_models_by_priority b.flush_order (map (λ e. e.0) b.create_buffers) in
      let updates = sort_models_by_priority b.flush_order (map (λ e. e.0) b.update_buffers) in
      let s1 = (flush_models orm creates create (b, w)).0 in
      let s2 = (flush_models orm updates update s1).0.0 in
      let end = (flush orm (b, w)).0.0.stats in
      let count =
        (flush_models orm creates create (b, w)).1 + (flush_models orm updates update s1).1 in
      let step1 : s2 ≡ record s1.0 {
        update_buffers = erase_all updates s1.0.update_buffers;
        stats = s2.stats;
      } =
        flush_models-update updates s1 in
      count_flush_lem count s2
      ∙ ap (λ (x : WriteBuffer). record x { stats = end }) step1
      ∙ ap
          (λ (x : WriteBuffer). record x {
            update_buffers = erase_all updates x.update_buffers;
            stats = end;
          })
          (flush_models-create creates (b, w))
      ∙ ap
          (λ (d : Dict String (List Instance)). record b {
            create_buffers = d;
            update_buffers = erase_all updates b.update_buffers;
            stats = end;
          })
          (drained b.flush_order b.create_buffers)
      ∙ ap
          (λ (d : Dict String (List UpdateEntry)). record b {
            create_buffers = [];
            update_buffers = d;
            stats = end;
          })
          (drained b.flush_order b.update_buffers)

  pub run_task_lem : (t : FlushTask) (s : WriteBuffer × W) → SameSettings s.0 (run_task orm t s).0
  unfolding run_task flush_model_unlocked
  run_task_lem flush_all s = subst (SameSettings s.0) (sym (flush_lem s)) refl
  run_task_lem (flush_model c create) s =
      subst (SameSettings s.0) (sym (flush_creates_lem c s)) refl
  run_task_lem (flush_model c update) s =
      subst (SameSettings s.0) (sym (flush_updates_lem c s)) refl
  run_task_lem (flush_model c all) s =
      let b1 = (flush_creates orm c s).0.0 in
      subst (SameSettings s.0)
        (sym (
          flush_updates_lem c (flush_creates orm c s).0
          ∙ ap
              (λ (x : WriteBuffer). record x {
                update_buffers = erase c x.update_buffers;
                stats = (flush_updates orm c (flush_creates orm c s).0).0.0.stats;
              })
              (flush_creates_lem c s)))
        refl

  run_tasks_lem :
      (ts : List FlushTask) (s : WriteBuffer × W)
      → let b = (run_tasks orm ts s).0 in
        (b.background_tasks ≡ s.0.background_tasks) × (b.running ≡ s.0.running)
  unfolding run_tasks
  run_tasks_lem [] s = (refl, refl)
  run_tasks_lem (t ∷ ts) s =
      let one = run_task_lem t s in
      let rest = run_tasks_lem ts (run_task orm t s) in
      (
        rest.0 ∙ ap (λ (x : WriteBuffer). x.background_tasks) one,
        rest.1 ∙ ap (λ (x : WriteBuffer). x.running) one,
      )

  -- Once the buffer is stopped, nothing is buffered, no background task is left and it does not run,
  -- whatever the mapper answers.
  pub stop_lem :
      (s : WriteBuffer × W)
      → let b = (stop orm s).0.0 in
        (pending_creates b ≡ 0)
        × (pending_updates b ≡ 0)
        × (b.background_tasks ≡ [])
        × (b.running ≡ false)
  unfolding stop pending_creates pending_updates sum_lengths
  stop_lem (b, w) =
      let t = record b { running = false; background_tasks = [] } in
      let ran = run_tasks_lem b.background_tasks (t, w) in
      let end = flush_lem (run_tasks orm b.background_tasks (t, w)) in
      (
        ap pending_creates end,
        ap pending_updates end,
        ap (λ (x : WriteBuffer). x.background_tasks) end ∙ ran.0,
        ap (λ (x : WriteBuffer). x.running) end ∙ ran.1,
      )
