-- ===== src/Manager/Repository/Pages.antt =====
-- One fetch of a page: the active rows after the cursor, and the cursor after it.
use safactory.Base.{
  string_eq, nat_eq, IsAbove, IsAbove-keep, IsAbove-take, List, String, [], after_take, ap, arith,
  drop, if◌then◌else◌, keep-IsAbove, keep_if, last_id, last_id-ge, ltb, none, refl, suc, take, zero,
  ℕ, ◌==◌, ◌∙◌, ◌∷◌, ◌≡◌, ◌≤◌, Bool, false, some, ◌&&◌, ◌<◌,
}
use safactory.Data.Environments.{
  EnvRow, is_after, limited, list_environment_rows, query_matches, select_rows, flag_matches,
  text_matches,
}
use safactory.Data.Environments.Active.{active_query, active_after}
use safactory.Manager.Repository.{Repository, fetch_args, fetch_rows_snapshot, next_last_seen_id}
use safactory.Manager.Repository.Queue.{row_id, unread, job_of}

active_after-IsAbove :
    (table : List EnvRow) (job : String) (after : ℕ)
    → IsAbove row_id 0 table
    → IsAbove row_id after (active_after table job after)
unfolding query_matches is_after
active_after-IsAbove table job zero a =
    IsAbove-keep row_id (query_matches (active_query job 0 none)) 0 table a
active_after-IsAbove table job (suc n) a =
    keep-IsAbove row_id (query_matches (active_query job (suc n) none)) (suc n) 0 table
      (λ row h. ground arith) a

is_after-later : (c c' id : ℕ) → c ≤ c' → 0 < id → is_after c' id ≡ (is_after c id && ltb c' id)
unfolding is_after
is_after-later c c' id h positive = ground arith

and_move :
    (a b x y z f g : Bool) → x ≡ (y && z) → (a && b && x && f && g) ≡ ((a && b && y && f && g) && z)
and_move a b x y z f g e = ground (arith, e)

later_test :
    (job : String) (c c' : ℕ) (row : EnvRow)
    → c ≤ c'
    → 0 < row.id
    → query_matches (active_query job c' none) row
      ≡ (query_matches (active_query job c none) row && ltb c' row.id)
unfolding query_matches
later_test job c c' row h positive =
    and_move (text_matches job row.job_id) (text_matches "" row.env_id) (is_after c' row.id)
      (is_after c row.id) (ltb c' row.id) (flag_matches (some false) row.finished)
      (flag_matches (some false) row.is_deleted) (is_after-later c c' row.id h positive)

keep_both {ℓ} :
    {A : Type ℓ} (f g h : A → Bool) (x : A) (xs : List A)
    → f x ≡ (g x && h x)
    → keep_if f xs ≡ keep_if h (keep_if g xs)
    → keep_if f (x ∷ xs) ≡ keep_if h (keep_if g (x ∷ xs))
keep_both f g h x xs e rest = ground (arith, e, rest)

-- Of the rows after a cursor, those after a later cursor.
active_after-later :
    (table : List EnvRow) (job : String) (c c' n : ℕ)
    → c ≤ c'
    → IsAbove row_id n table
    → active_after table job c' ≡ keep_if (λ row. ltb c' (row_id row)) (active_after table job c)
active_after-later [] job c c' n h a = refl
active_after-later (row ∷ rows) job c c' n h a =
    keep_both (query_matches (active_query job c' none)) (query_matches (active_query job c none))
      (λ x. ltb c' (row_id x)) row rows (later_test job c c' row h (omega (arith, a.0)))
      (active_after-later rows job c c' row.id h a.1)

next_last_seen_id_lem :
    (last : ℕ) (rows : List EnvRow)
    → IsAbove row_id last rows
    → next_last_seen_id last rows ≡ last_id row_id last rows
unfolding next_last_seen_id
next_last_seen_id_lem last [] a = refl
next_last_seen_id_lem last (row ∷ rows) a =
    let same : (if row.id == 0 then last else row.id) ≡ row.id = ground (arith, a.0) in
    ap (λ n. next_last_seen_id n rows) same ∙ next_last_seen_id_lem row.id rows a.1

-- What a fetch reads of a table in the order of its ids: the first of the unread rows, and then those
-- after them are unread.
pub snapshot_lem :
    (table : List EnvRow) (limit : ℕ) (r : Repository)
    → IsAbove row_id 0 table
    → let out = fetch_rows_snapshot r.manager_job_id r.job_id (fetch_args limit r) table in
      let page = take limit (unread table r) in
      (out.0 ≡ page)
      × (active_after table (job_of r) out.1 ≡ drop limit (unread table r))
      × (out.2 ≡ r.fallback_offset)
unfolding fetch_rows_snapshot fetch_args list_environment_rows select_rows limited query_matches
snapshot_lem table limit r a =
    let c = r.last_seen_id in
    let above = active_after-IsAbove table (job_of r) c a in
    let cursor =
      next_last_seen_id_lem c (take limit (unread table r))
        (IsAbove-take row_id limit c (unread table r) above) in
    (
      refl,
      ap (active_after table (job_of r)) cursor
          ∙ active_after-later table (job_of r) c (last_id row_id c (take limit (unread table r))) 0
              (last_id-ge row_id c limit (unread table r) above) a
          ∙ after_take row_id c limit (unread table r) above,
      refl,
    )
