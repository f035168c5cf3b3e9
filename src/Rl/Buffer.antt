-- ===== src/Rl/Buffer.antt =====
-- rl/buffer_server.py: the server that hands finished trajectories to the trainer in groups, and the
-- query that it polls (core/data_manager/strategy/sqlite_strategy_impl.py).
pub mod Groups
pub mod Polling
pub mod Examples
use safactory.Base.{
  string_eq, nat_eq, Bool, Dict, List, Option, String, [], drop, if◌then◌else◌, insert, keep_if,
  leb, length, lookup, ltb, map, none, some, suc, take, zero, ℕ, ◌&&◌, ◌++◌, ◌+◌, ◌==◌, ◌||◌, ◌∷◌,
}

-- The item of `_build_item_from_row`, less its messages, its reward and its extra
-- information, which the grouping does not read.
pub record Item : Type 0 where
  pub uid : String
  pub instance_id : String

-- The globals of the server.
pub record Server : Type 0 where
  pub last_served_id : ℕ
  pub pending_items_by_instance : Dict String (List Item)
  pub group_size : ℕ

pub or_none : Option (List Item) → List Item
or_none none = []
or_none (some b) = b

-- `pending.setdefault(instance_id, []).append(item)`, unless the id is blank.
pub enqueue : Dict String (List Item) → Item → Dict String (List Item)
unfolding or_none
enqueue d item =
    if item.instance_id == ""
    then d
    else insert item.instance_id (or_none (lookup item.instance_id d) ++ (item ∷ [])) d

pub enqueue_all : Dict String (List Item) → List Item → Dict String (List Item)
enqueue_all d [] = d
enqueue_all d (item ∷ items) = enqueue_all (enqueue d item) items

-- `while len(bucket) >= group_size`: the groups cut off, and what is left of the bucket. The fuel
-- is one more than the items, which is enough for a size that is not 0.
pub cut : ℕ → ℕ → List Item → List (List Item) × List Item
cut zero size bucket = ([], bucket)
cut (suc fuel) size bucket =
    let rest = cut fuel size (drop size bucket) in
    if leb size (length bucket) then (take size bucket ∷ rest.0, rest.1) else ([], bucket)

pub cut_bucket : ℕ → List Item → List (List Item) × List Item
unfolding cut
cut_bucket size bucket = cut (length bucket + 1) size bucket

-- A bucket that is left empty is removed.
pub with_left : String → List Item → Dict String (List Item) → Dict String (List Item)
with_left id [] d = d
with_left id (item ∷ items) d = (id, item ∷ items) ∷ d

pub labelled : String → List (List Item) → List (String × List Item)
labelled id gs = map (λ g. (id, g)) gs

-- The pass over the buckets.
pub pop_ready_groups :
    ℕ → Dict String (List Item) → List (String × List Item) × Dict String (List Item)
unfolding cut_bucket with_left labelled
pop_ready_groups size [] = ([], [])
pop_ready_groups size ((id, bucket) ∷ d) =
    let (gs, left) = cut_bucket size bucket in
    let (ready, rest) = pop_ready_groups size d in (labelled id gs ++ ready, with_left id left rest)

-- `(ready_groups, finished_instance_ids)`, with the server that is left.
pub accumulate_and_pop_ready_groups :
    Server → List Item → Server × List (String × List Item) × List String
unfolding enqueue_all pop_ready_groups
accumulate_and_pop_ready_groups s items =
    let (ready, d) =
      pop_ready_groups s.group_size (enqueue_all s.pending_items_by_instance items) in
    (record s { pending_items_by_instance = d }, ready, map (λ g. g.0) ready)

-- A row of the table of steps, less the columns that the query does not test.
pub record Row : Type 0 where
  pub id : ℕ
  pub job_id : String
  pub is_trainable : Bool
  pub group_id : String

-- `filter(job_id=..., is_trainable=True, id__gt=after_id)`
pub is_due : String → ℕ → Row → Bool
is_due job after row = (row.job_id == job) && row.is_trainable && ltb after row.id

-- `fetch_done_steps_with_context`, of a table in the order of its ids.
pub fetch_done_steps : List Row → String → ℕ → ℕ → List Row
unfolding is_due
fetch_done_steps table job after limit = take limit (keep_if (is_due job after) table)

-- `if not last_served_id or step_pk > last_served_id`
pub advance : ℕ → ℕ → ℕ
advance last pk = if (last == 0) || ltb last pk then pk else last

-- The cursor moves, and an item is added, only for a row that could be built.
pub moved : ℕ → Row → Option Item → ℕ
unfolding advance
moved last row none = last
moved last row (some item) = advance last row.id

pub with_item : Option Item → List Item → List Item
with_item none items = items
with_item (some item) items = item ∷ items

-- The loop over the rows.
pub serve : (Row → Option Item) → ℕ → List Row → ℕ × List Item
unfolding moved with_item
serve build last [] = (last, [])
serve build last (row ∷ rows) =
    let rest = serve build (moved last row (build row)) rows in
    (rest.0, with_item (build row) rest.1)

-- `limit or 100`
pub or_hundred : Option ℕ → ℕ
or_hundred none = 100
or_hundred (some zero) = 100
or_hundred (some (suc n)) = suc n

-- Without a table there is no data manager yet, or its query has raised an exception.
pub fetch_new_items_from_db :
    (Row → Option Item) → Option (List Row) → String → Option ℕ → Server → Server × List Item
unfolding serve fetch_done_steps or_hundred
fetch_new_items_from_db build none job limit s = (s, [])
fetch_new_items_from_db build (some table) job limit s =
    let (last, items) =
      serve build s.last_served_id
        (fetch_done_steps table job s.last_served_id (or_hundred limit)) in
    (record s { last_served_id = last }, items)
