-- ===== src/Data/WriteBuffer/Scheduled/Flushed.antt =====
-- Flushes, and the tasks that are done, against the buffers that are full.
use safactory.Base.{
  string_eq, lookup, List, String, ap, arith, false, if◌then◌else◌, inl, inr, refl, true, ◌&&◌,
  ◌++◌, ◌<◌, ◌==◌, ◌||◌, ◌∙◌, ◌∷◌, ◌≡◌, Bool, Bool-cases, Option, [], if_elim, subst, sym, ℕ, ◌≤◌,
}
use safactory.Data.WriteBuffer.{
  WriteBuffer, FlushTask, Operation, Orm, all, create, create_len, flush_all, flush_model, or_empty,
  update, update_len, Instance, buffer_create, buffer_update, init, start,
}
use safactory.Data.WriteBuffer.Flush.{
  flush, flush_creates, flush_model_unlocked, flush_updates, run_task,
}
use safactory.Data.WriteBuffer.Sizes.{or_empty-erase}
use safactory.Data.WriteBuffer.Draining.{
  flush_lem, flush_creates_lem, flush_updates_lem, run_task_lem,
}
use safactory.Data.WriteBuffer.Steps.{
  Reach, made, changed, created, flushed, flushed_model, ran, started, updated,
}
use safactory.Data.WriteBuffer.Scheduled.{
  IsScheduled, buffered, covered-append, covers, is_covered, same_operation, buffered-tasks,
  create-IsScheduled, create-size, running-IsScheduled, update-IsScheduled, update-size,
}

covered-remove :
    (before after : List FlushTask) (t : FlushTask) (op : Operation) (c : String)
    → covers t op c ≡ false
    → is_covered (before ++ (t ∷ after)) op c ≡ true
    → is_covered (before ++ after) op c ≡ true
covered-remove before after t op c other h =
    ground (arith, covered-append before (t ∷ after) op c, covered-append before after op c)

module _ {W : Type 0} (orm : Orm W) where
  flush_creates-buffered :
      (c d : String) (s : WriteBuffer × W) (op : Operation)
      → buffered op c (flush_creates orm d s).0.0
        ≡ (if (d == c) && same_operation create op then 0 else buffered op c s.0)
  unfolding create_len update_len
  flush_creates-buffered c d s create =
      ap (λ (x : WriteBuffer). create_len c x) (flush_creates_lem orm d s)
      ∙ ground (arith, or_empty-erase d c s.0.create_buffers)
  flush_creates-buffered c d s update =
      ap (λ (x : WriteBuffer). update_len c x) (flush_creates_lem orm d s) ∙ ground arith
  flush_creates-buffered c d s all = ground arith

  flush_updates-buffered :
      (c d : String) (s : WriteBuffer × W) (op : Operation)
      → buffered op c (flush_updates orm d s).0.0
        ≡ (if (d == c) && same_operation update op then 0 else buffered op c s.0)
  unfolding create_len update_len
  flush_updates-buffered c d s update =
      ap (λ (x : WriteBuffer). update_len c x) (flush_updates_lem orm d s)
      ∙ ground (arith, or_empty-erase d c s.0.update_buffers)
  flush_updates-buffered c d s create =
      ap (λ (x : WriteBuffer). create_len c x) (flush_updates_lem orm d s) ∙ ground arith
  flush_updates-buffered c d s all = ground arith

  run_task-buffered :
      (t : FlushTask) (s : WriteBuffer × W) (op : Operation) (c : String)
      → buffered op c (run_task orm t s).0 ≡ (if covers t op c then 0 else buffered op c s.0)
  unfolding run_task flush_model_unlocked create_len update_len lookup or_empty
  run_task-buffered flush_all s create c =
      ap (λ (x : WriteBuffer). create_len c x) (flush_lem orm s)
  run_task-buffered flush_all s update c =
      ap (λ (x : WriteBuffer). update_len c x) (flush_lem orm s)
  run_task-buffered flush_all s all c = refl
  run_task-buffered (flush_model d create) s op c = ground (arith, flush_creates-buffered c d s op)
  run_task-buffered (flush_model d update) s op c = ground (arith, flush_updates-buffered c d s op)
  run_task-buffered (flush_model d all) s op c =
      flush_updates-buffered c d (flush_creates orm d s).0 op ∙ both op
    where
      both :
          (op : Operation)
          → (if (d == c) && same_operation update op
              then 0
              else buffered op c (flush_creates orm d s).0.0)
            ≡ (if (d == c) && (same_operation all op || true) then 0 else buffered op c s.0)
      both create = ground (arith, flush_creates-buffered c d s create)
      both update = ground (arith, flush_creates-buffered c d s update)
      both all = ground (arith, flush_creates-buffered c d s all)

  -- A task runs, and the tasks that are left cover what it does not.
  task-IsScheduled :
      (t : FlushTask) (b : WriteBuffer) (w : W) (ts : List FlushTask)
      → 0 < b.buffer_size
      → IsScheduled b
      → ((op : Operation) (c : String)
          → covers t op c ≡ false
          → is_covered b.background_tasks op c ≡ true
          → is_covered ts op c ≡ true)
      → IsScheduled (run_task orm t (record b { background_tasks = ts }, w)).0
  task-IsScheduled t b w ts positive i left op c h =
      let b1 = record b { background_tasks = ts } in
      let settings = run_task_lem orm t (b1, w) in
      let size : (run_task orm t (b1, w)).0.buffer_size ≡ b.buffer_size =
        ap (λ (x : WriteBuffer). x.buffer_size) settings in
      let tasks : (run_task orm t (b1, w)).0.background_tasks ≡ ts =
        ap (λ (x : WriteBuffer). x.background_tasks) settings in
      let len = run_task-buffered t (b1, w) op c in
      let same = buffered-tasks op c b ts in
      elim (Bool-cases (covers t op c)) [
        | inl covered ↦ absurd (ground (arith, size))
        | inr other ↦
            subst (λ us. is_covered us op c ≡ true) (sym tasks)
              (left op c other (i op c (ground (arith, size))))
      ]

  module _ (size : ℕ) (auto : Bool) (order : List String) (positive : 0 < size) where
    abbrev IsKept : WriteBuffer → Type 0
    IsKept b = (b.buffer_size ≡ size) × IsScheduled b

    task-IsKept :
        (t : FlushTask) (b : WriteBuffer) (w : W) (ts : List FlushTask)
        → IsKept b
        → ((op : Operation) (c : String)
            → covers t op c ≡ false
            → is_covered b.background_tasks op c ≡ true
            → is_covered ts op c ≡ true)
        → IsKept (run_task orm t (record b { background_tasks = ts }, w)).0
    task-IsKept t b w ts k left =
        let b1 = record b { background_tasks = ts } in
        (
          ap (λ (x : WriteBuffer). x.buffer_size) (run_task_lem orm t (b1, w)) ∙ k.0,
          task-IsScheduled t b w ts (subst (λ n. 0 < n) (sym k.0) positive) k.1 left,
        )

    made-IsKept : (w : W) → IsKept (init size auto order)
    unfolding init create_len update_len lookup or_empty
    made-IsKept w = (refl, λ (op : Operation) (c : String). empty op c)
      where
        empty :
            (op : Operation) (c : String)
            → size ≤ buffered op c (init size auto order)
            → is_covered [] op c ≡ true
        empty create c h = absurd (omega (arith, positive, h))
        empty update c h = absurd (omega (arith, positive, h))
        empty all c h = absurd (omega (arith, positive, h))

    start-IsKept : (b : WriteBuffer) → IsKept b → IsKept (start b)
    unfolding start
    start-IsKept b k = if_elim IsKept b.running _ _ k (k.0, running-IsScheduled b true k.1)

    create-IsKept : (x : Instance) (b : WriteBuffer) → IsKept b → IsKept (buffer_create x b)
    create-IsKept x b k = (create-size x b ∙ k.0, create-IsScheduled x b k.1)

    update-IsKept :
        (same : Instance → Instance → Bool) (x : Instance) (fields : Option (List String))
        (b : WriteBuffer)
        → IsKept b
        → IsKept (buffer_update same x fields b)
    update-IsKept same x fields b k =
        (update-size same x fields b ∙ k.0, update-IsScheduled same x fields b k.1)

    flush_model-IsKept :
        (c : String) (operation : Operation) (s : WriteBuffer × W)
        → IsKept s.0
        → IsKept (flush_model_unlocked orm c operation s).0.0
    unfolding run_task
    flush_model-IsKept c operation (b, w) k =
        task-IsKept (flush_model c operation) b w b.background_tasks k
          (λ op d other covered. covered)

    flush-IsKept : (s : WriteBuffer × W) → IsKept s.0 → IsKept (flush orm s).0.0
    unfolding run_task
    flush-IsKept (b, w) k =
        task-IsKept flush_all b w b.background_tasks k (λ op d other covered. covered)

    Reach-IsKept : {s : WriteBuffer × W} → Reach orm size auto order s → IsKept s.0
    Reach-IsKept (made w) = made-IsKept w
    Reach-IsKept (started {b = b} r) = start-IsKept b (Reach-IsKept r)
    Reach-IsKept (created {b = b} x r) = create-IsKept x b (Reach-IsKept r)
    Reach-IsKept (updated {b = b} {w = w} x fields r) =
        update-IsKept (orm.same w) x fields b (Reach-IsKept r)
    Reach-IsKept (flushed_model {s = s} c operation r) =
        flush_model-IsKept c operation s (Reach-IsKept r)
    Reach-IsKept (flushed {s = s} r) = flush-IsKept s (Reach-IsKept r)
    Reach-IsKept (ran {b = b} {w = w} before after t e r) =
        task-IsKept t b w (before ++ after) (Reach-IsKept r) (λ op c other covered.
          covered-remove before after t op c other
            (subst (λ us. is_covered us op c ≡ true) e covered))
    Reach-IsKept (changed w' r) = Reach-IsKept r

    -- In every state that is reached by a write buffer whose size is above 0, a buffer of a class
    -- that holds at least as many entries as the size has a background task waiting that flushes it.
    pub Reach-IsScheduled : {s : WriteBuffer × W} → Reach orm size auto order s → IsScheduled s.0
    Reach-IsScheduled r = (Reach-IsKept r).1
