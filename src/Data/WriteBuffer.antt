-- ===== src/Data/WriteBuffer.antt =====
-- core/data_manager/write_buffer.py: rows to create and to update are buffered by their model class
-- and written in batches. The object-relational mapper and its database are parameters (Orm).
pub mod Flush
pub mod Sizes
pub mod Grouping
pub mod Order
pub mod Draining
pub mod Steps
pub mod Counts
pub mod Scheduled
pub mod Skipping
pub mod Examples
use safactory.Base.{
  string_eq, nat_eq, lookup, Bool, Dict, List, Option, String, [], false, if◌then◌else◌, insert,
  leb, length, none, not, some, true, ℕ, ◌&&◌, ◌++◌, ◌+◌, ◌==◌, ◌||◌, ◌∷◌, Eq, list_eq,
}

-- An object of a model class, by its identity.
pub record Instance : Type 0 where
  pub handle : ℕ
  pub model_class : String

instance unfoldable pub fields_eq : Eq (List String)
fields_eq = list_eq

-- The time of an entry is not read. A set of field names is a list in the alphabetical order, so that
-- equal sets are equal lists.
pub record UpdateEntry : Type 0 where
  pub instance_ : Instance
  pub update_fields : List String

-- `operation: "create", "update", or "all"`
pub data Operation : Type 0 where
  create update all : Operation

-- The coroutines that the background tasks run.
pub data FlushTask : Type 0 where
  flush_all : FlushTask
  flush_model : String → Operation → FlushTask

pub record Stats : Type 0 where
  pub total_create_buffered : ℕ
  pub total_create_flushed : ℕ
  pub total_update_buffered : ℕ
  pub total_update_flushed : ℕ
  pub flush_count : ℕ

-- The interval of the periodic task is only slept.
pub record WriteBuffer : Type 0 where
  pub create_buffers : Dict String (List Instance)
  pub update_buffers : Dict String (List UpdateEntry)
  pub buffer_size : ℕ
  pub auto_start : Bool
  pub running : Bool
  pub flush_order : List String
  pub background_tasks : List FlushTask
  pub stats : Stats

pub init : ℕ → Bool → List String → WriteBuffer
init buffer_size auto_start flush_order = record {
  create_buffers = [];
  update_buffers = [];
  buffer_size = buffer_size;
  auto_start = auto_start;
  running = false;
  flush_order = flush_order;
  background_tasks = [];
  stats = record {
    total_create_buffered = 0;
    total_create_flushed = 0;
    total_update_buffered = 0;
    total_update_flushed = 0;
    flush_count = 0;
  };
}

-- What Tortoise and the database behind it do to the world `W`, which holds the tables and the
-- objects in memory. A `false` or a `none` is an exception.
pub record Orm (W : Type 0) : Type 0 where
  pub bulk_create : String → List Instance → W → W × Bool
  pub bulk_update : String → List Instance → List String → W → W × Bool
  pub save : Instance → W → W × Bool
  -- The records whose field has one of the values: that value and the primary key of each.
  pub filter : String → String → List String → W → W × Option (List (String × ℕ))
  pub has_field : String → String → Bool
  pub get_field : W → String → Instance → String
  pub pk : W → Instance → Option ℕ
  pub set_pk : Instance → ℕ → W → W
  -- The `==` of two objects.
  pub same : W → Instance → Instance → Bool

-- `start`, without the task that it creates, which calls `flush` again and again.
pub start : WriteBuffer → WriteBuffer
start b = if b.running then b else record b { running = true }

pub start_if_needed : WriteBuffer → WriteBuffer
unfolding start
start_if_needed b = if b.auto_start && not b.running then start b else b

pub or_empty {ℓ} : {A : Type ℓ} → Option (List A) → List A
or_empty none = []
or_empty (some xs) = xs

pub flush_task_for : WriteBuffer → String → Operation → FlushTask
flush_task_for b model_class operation = elim b.flush_order [
  | [] ↦ flush_model model_class operation
  | first ∷ rest ↦ flush_all
]

-- `_create_flush_task`, once a buffer has reached its size.
pub flush_if_full : ℕ → String → Operation → WriteBuffer → WriteBuffer
unfolding flush_task_for
flush_if_full buffer_len model_class operation b =
    if leb b.buffer_size buffer_len
    then record b {
      background_tasks = b.background_tasks ++ (flush_task_for b model_class operation ∷ []);
    }
    else b

pub append_create : Instance → WriteBuffer → WriteBuffer
unfolding or_empty
append_create x b = record b {
  create_buffers =
      insert x.model_class (or_empty (lookup x.model_class b.create_buffers) ++ (x ∷ []))
        b.create_buffers;
  stats = record b.stats { total_create_buffered = b.stats.total_create_buffered + 1 };
}

pub create_len : String → WriteBuffer → ℕ
unfolding or_empty
create_len model_class b = length (or_empty (lookup model_class b.create_buffers))

pub update_len : String → WriteBuffer → ℕ
unfolding or_empty
update_len model_class b = length (or_empty (lookup model_class b.update_buffers))

pub buffer_create : Instance → WriteBuffer → WriteBuffer
unfolding start_if_needed append_create create_len flush_if_full
buffer_create x b =
    let b1 = append_create x (start_if_needed b) in
    flush_if_full (create_len x.model_class b1) x.model_class create b1

-- `x in xs`: the same object, or one that is equal to it.
pub is_in : (Instance → Instance → Bool) → Instance → List Instance → Bool
is_in same x [] = false
is_in same x (y ∷ ys) =
    ((x.handle == y.handle) && (x.model_class == y.model_class)) || (same x y || is_in same x ys)

pub append_update : Instance → List String → WriteBuffer → WriteBuffer
unfolding or_empty
append_update x update_fields b = record b {
  update_buffers =
      insert x.model_class
        (or_empty (lookup x.model_class b.update_buffers)
          ++ (record { instance_ = x; update_fields = update_fields } ∷ []))
        b.update_buffers;
  stats = record b.stats { total_update_buffered = b.stats.total_update_buffered + 1 };
}

-- Without fields the set is empty.
pub buffer_update :
    (Instance → Instance → Bool) → Instance → Option (List String) → WriteBuffer → WriteBuffer
unfolding start_if_needed is_in append_update update_len flush_if_full or_empty
buffer_update same x update_fields b =
    let b1 = start_if_needed b in
    let b2 = append_update x (or_empty update_fields) b1 in
    if is_in same x (or_empty (lookup x.model_class b1.create_buffers))
    then b1
    else flush_if_full (update_len x.model_class b2) x.model_class update b2

-- `pending_count`
pub sum_lengths {ℓ κ} : {K : Type κ} {A : Type ℓ} → Dict K (List A) → ℕ
sum_lengths [] = 0
sum_lengths ((k, xs) ∷ d) = length xs + sum_lengths d

pub pending_creates : WriteBuffer → ℕ
unfolding sum_lengths
pending_creates b = sum_lengths b.create_buffers

pub pending_updates : WriteBuffer → ℕ
unfolding sum_lengths
pending_updates b = sum_lengths b.update_buffers
