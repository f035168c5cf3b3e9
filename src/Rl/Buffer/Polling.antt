-- ===== src/Rl/Buffer/Polling.antt =====
-- Polling by the cursor serves each row once, in the order of the ids.
use safactory.Base.{
  arith, string_eq, nat_eq, List, Option, String, [], ap, is_some, keep_if, none, refl, some, true,
  ℕ, ◌<◌, ◌∷◌, ◌≡◌, drop, ltb, take, ◌≤◌, ◌∙◌, IsAbove, IsAbove-take, after_take, keep-IsAbove,
  last_id, last_id-ge,
}
use safactory.Rl.Buffer.{
  Item, Row, advance, is_due, moved, serve, with_item, Server, fetch_done_steps,
  fetch_new_items_from_db, or_hundred,
}

-- The id of a row.
abbrev pub row_id : Row → ℕ
row_id row = row.id

-- Every one of these rows can be built.
abbrev pub AllBuilt : (Row → Option Item) → List Row → Type 0
AllBuilt build [] = Unit
AllBuilt build (row ∷ rows) = (is_some (build row) ≡ true) × AllBuilt build rows

-- The rows that have not been served yet.
abbrev pub due : List Row → String → ℕ → List Row
due table job after = keep_if (is_due job after) table

-- The items of rows.
abbrev pub built : (Row → Option Item) → List Row → List Item
built build [] = []
built build (row ∷ rows) = with_item (build row) (built build rows)

serve_items :
    (build : Row → Option Item) (last : ℕ) (rows : List Row)
    → (serve build last rows).1 ≡ built build rows
unfolding serve
serve_items build last [] = refl
serve_items build last (row ∷ rows) =
    ap (with_item (build row)) (serve_items build (moved last row (build row)) rows)

moved_built :
    (last : ℕ) (row : Row) (o : Option Item)
    → last < row.id
    → is_some o ≡ true
    → moved last row o ≡ row.id
unfolding moved advance
moved_built last row none h e = absurd (cc e)
moved_built last row (some i) h e = ground arith

serve_cursor :
    (build : Row → Option Item) (last : ℕ) (rows : List Row)
    → IsAbove row_id last rows
    → AllBuilt build rows
    → (serve build last rows).0 ≡ last_id row_id last rows
unfolding serve
serve_cursor build last [] a b = refl
serve_cursor build last (row ∷ rows) a b =
    rw (moved_built last row (build row) a.0 b.0) (serve_cursor build row.id rows a.1 b.1)

due-IsAbove :
    (table : List Row) (job : String) (after n : ℕ)
    → IsAbove row_id n table
    → IsAbove row_id after (due table job after)
unfolding is_due
due-IsAbove table job after n a =
    keep-IsAbove row_id (is_due job after) after n table (λ row. is_due-above row) a
  where
    is_due-above : (row : Row) → is_due job after row ≡ true → after < row.id
    is_due-above row h = ground arith

due-due :
    (table : List Row) (job : String) (c c' : ℕ)
    → c ≤ c'
    → due table job c' ≡ keep_if (λ row. ltb c' row.id) (due table job c)
unfolding is_due
due-due [] job c c' h = refl
due-due (row ∷ rows) job c c' h = ground (arith, due-due rows job c c' h)

-- One poll of a table in the order of its ids serves the items of the next due rows, as many as the
-- limit allows, and leaves the due rows after them for the next polls, where these rows can be
-- built: no row is served twice, and none is passed over.
pub poll_lem :
    (build : Row → Option Item) (table : List Row) (job : String) (limit : Option ℕ) (s : Server)
    → IsAbove row_id 0 table
    → AllBuilt build (take (or_hundred limit) (due table job s.last_served_id))
    → let q = fetch_new_items_from_db build (some table) job limit s in
      let before = due table job s.last_served_id in
      (q.1 ≡ built build (take (or_hundred limit) before))
      × (due table job q.0.last_served_id ≡ drop (or_hundred limit) before)
unfolding fetch_new_items_from_db fetch_done_steps
poll_lem build table job limit s sorted all_built =
    let c = s.last_served_id in
    let before = due table job c in
    let above = due-IsAbove table job c 0 sorted in
    let cursor =
      serve_cursor build c (take (or_hundred limit) before)
        (IsAbove-take row_id (or_hundred limit) c before above) all_built in
    (
      serve_items build c (take (or_hundred limit) before),
      ap (due table job) cursor
          ∙ due-due table job c (last_id row_id c (take (or_hundred limit) before))
              (last_id-ge row_id c (or_hundred limit) before above)
          ∙ after_take row_id c (or_hundred limit) before above,
    )
