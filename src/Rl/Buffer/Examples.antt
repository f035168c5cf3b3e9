-- ===== src/Rl/Buffer/Examples.antt =====
-- Tests of the buffer server, and its theorems at concrete inputs.
use safactory.Base.{
  refl, string_eq, nat_eq, arith, IsUnique, List, Option, String, [], drop, false, insert, length,
  lookup, some, take, true, ℕ, ◌++◌, ◌<◌, ◌∷◌, ◌≡◌, IsAbove,
}
use safactory.Rl.Buffer.{
  Item, Row, Server, accumulate_and_pop_ready_groups, cut, cut_bucket, enqueue, enqueue_all,
  fetch_new_items_from_db, is_due, labelled, or_none, pop_ready_groups, with_left, or_hundred,
}
use safactory.Rl.Buffer.Groups.{concat, EachFull, bucket_of, groups_of, items_of}
use safactory.Rl.Buffer.Groups.Pass.{full_groups, accumulate_lem}
use safactory.Rl.Buffer.Polling.{row_id, poll_lem, AllBuilt, built, due}

abbrev item : String → String → Item
item u g = record { uid = u; instance_id = g }

abbrev server : Server
server = record {
  last_served_id = 0;
  pending_items_by_instance = ("g1", item "a" "g1" ∷ []) ∷ [];
  group_size = 2;
}

abbrev arrivals : List Item
arrivals = item "b" "g2" ∷ item "c" "g1" ∷ item "d" "" ∷ item "e" "g1" ∷ []

groups_first : accumulate_and_pop_ready_groups server arrivals ≡ (
  record server {
    pending_items_by_instance = ("g1", item "e" "g1" ∷ []) ∷ ("g2", item "b" "g2" ∷ []) ∷ [];
  },
  ("g1", item "a" "g1" ∷ item "c" "g1" ∷ []) ∷ [],
  "g1" ∷ [],
)
unfolding accumulate_and_pop_ready_groups pop_ready_groups enqueue_all enqueue cut_bucket cut
    with_left labelled or_none lookup insert
groups_first = refl

pending-IsUnique : IsUnique server.pending_items_by_instance
unfolding lookup
pending-IsUnique = (refl, tt)

accumulate_lem_example :
    let q = accumulate_and_pop_ready_groups server arrivals in
    concat (groups_of "g1" q.1) ++ bucket_of "g1" q.0.pending_items_by_instance
    ≡ bucket_of "g1" server.pending_items_by_instance ++ items_of "g1" arrivals
accumulate_lem_example = accumulate_lem server arrivals "g1" pending-IsUnique refl

full_groups_example :
    let q = accumulate_and_pop_ready_groups server arrivals in
    EachFull 2 q.1 × ((id : String) → length (bucket_of id q.0.pending_items_by_instance) < 2)
full_groups_example = full_groups server arrivals (omega arith)

abbrev row : ℕ → Row
row n = record { id = n; job_id = "j"; is_trainable = true; group_id = "g1" }

abbrev table : List Row
table = row 1 ∷ record (row 2) { is_trainable = false } ∷ row 4 ∷ row 7 ∷ []

abbrev build : Row → Option Item
build r = some (record { uid = "u"; instance_id = r.group_id })

sorted : IsAbove row_id 0 table
sorted = (omega arith, (omega arith, (omega arith, (omega arith, tt))))

first_built : AllBuilt build (take 2 (due table "j" 0))
unfolding is_due
first_built = (refl, (refl, tt))

poll_lem_example :
    let q = fetch_new_items_from_db build (some table) "j" (some 2) server in
    (q.1 ≡ built build (take 2 (due table "j" 0)))
    × (due table "j" q.0.last_served_id ≡ drop 2 (due table "j" 0))
unfolding or_hundred is_due
poll_lem_example = poll_lem build table "j" (some 2) server sorted first_built
