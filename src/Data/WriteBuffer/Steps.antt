-- ===== src/Data/WriteBuffer/Steps.antt =====
-- The states that a write buffer reaches. Between the flushes of two classes other coroutines may
-- buffer, so that the flush of one class is a step as well as the flush of all; and the world may
-- change in any way between two steps.
use safactory.Base.{string_eq, Bool, List, Option, String, ℕ, ◌++◌, ◌∷◌, ◌≡◌}
use safactory.Data.WriteBuffer.{
  WriteBuffer, FlushTask, Instance, Operation, Orm, buffer_create, buffer_update, init, start,
}
use safactory.Data.WriteBuffer.Flush.{flush, flush_model_unlocked, run_task}

module _ {W : Type 0} (orm : Orm W) (buffer_size : ℕ) (auto_start : Bool)
    (flush_order : List String) where
  pub data Reach : WriteBuffer × W → Type 0 where
    made : (w : W) → Reach (init buffer_size auto_start flush_order, w)
    started : {b : WriteBuffer} {w : W} → Reach (b, w) → Reach (start b, w)
    created : {b : WriteBuffer} {w : W} (x : Instance) → Reach (b, w) → Reach (buffer_create x b, w)
    updated :
        {b : WriteBuffer} {w : W} (x : Instance) (fields : Option (List String))
        → Reach (b, w)
        → Reach (buffer_update (orm.same w) x fields b, w)
    flushed_model :
        {s : WriteBuffer × W} (c : String) (operation : Operation)
        → Reach s
        → Reach (flush_model_unlocked orm c operation s).0
    flushed : {s : WriteBuffer × W} → Reach s → Reach (flush orm s).0
    -- A background task runs, and is then no longer among the tasks.
    ran :
        {b : WriteBuffer} {w : W} (before after : List FlushTask) (t : FlushTask)
        → b.background_tasks ≡ before ++ (t ∷ after)
        → Reach (b, w)
        → Reach (run_task orm t (record b { background_tasks = before ++ after }, w))
    changed : {b : WriteBuffer} {w : W} (w' : W) → Reach (b, w) → Reach (b, w')
