-- ===== src/Manager/Repository/Refills.antt =====
-- What the buffer is filled with, of a table that does not change.
use safactory.Base.{
  string_eq, nat_eq, Bool, List, Option, [], ap, arith, false, if_elim, inl, inr, length, not, refl,
  sym, true, ℕ, ◌&&◌, ◌++◌, ◌<◌, ◌==◌, ◌||◌, ◌∙◌, ◌∷◌, ◌≡◌, ◌⊎◌, IsAbove, length-append, none,
  subst, suc, take, take-append-drop, zero,
}
use safactory.Data.Environments.{EnvRow}
use safactory.Data.Environments.Active.{active_after}
use safactory.Manager.Repository.{
  Repository, Refill, after_fetch, break, no_rows, or_cached, ready, take_fetched,
  update_stop_state, FetchArgs, Moment, answered, await_fetch, fetch_args, fetch_rows_async,
  fetch_rows_snapshot, get_or_start_fetch_task, is_pending, refill,
}
use safactory.Manager.Repository.Queue.{row_id, IsSound, pending, unread, job_of}
use safactory.Manager.Repository.Pages.{snapshot_lem}

pub update_stop-IsSound :
    (table : List EnvRow) (r : Repository) → IsSound table r → IsSound table (update_stop_state r)
unfolding update_stop_state
update_stop-IsSound table r s =
    if_elim (IsSound table) r.stop_db_reads _ _ s
      (s.0, stopped r.row_buffer r.db_processing_done_cached)
  where
    stopped :
        (rows : List EnvRow) (cached : Bool)
        → (cached && (length rows == 0)) ≡ true
        → (rows ≡ []) × (cached ≡ true)
    stopped [] true h = (refl, refl)
    stopped [] false h = absurd (cc h)
    stopped (row ∷ rows) true h = absurd (ground arith)
    stopped (row ∷ rows) false h = absurd (cc h)

-- The state of the stop changes nothing of what is pending.
pub update_stop-pending :
    (table : List EnvRow) (r : Repository) → pending table (update_stop_state r) ≡ pending table r
unfolding update_stop_state
update_stop-pending table r =
    if_elim (λ (x : Repository). pending table x ≡ pending table r) r.stop_db_reads _ _ refl refl

no_rows_lem :
    (table : List EnvRow) (checker : Option Bool) (r : Repository)
    → r.stop_db_reads ≡ false
    → unread table r ≡ []
    → (pending table (no_rows checker r) ≡ pending table r) × IsSound table (no_rows checker r)
unfolding no_rows
no_rows_lem table checker r going empty =
    let r1 = record r {
      db_processing_done_cached = or_cached r.db_processing_done_cached checker;
    } in
    if_elim (λ (x : Repository). (pending table x ≡ pending table r) × IsSound table x)
      (not r.has_checker || r.db_processing_done_cached) _ _
      (
        update_stop-pending table r,
        update_stop-IsSound table r (λ h. empty, λ h. absurd (cc (going, h))),
      )
      (
        update_stop-pending table r1,
        update_stop-IsSound table r1 (λ h. empty, λ h. absurd (cc (going, h))),
      )

-- After a refill the loop goes on with rows in the buffer, or breaks with nothing left.
abbrev pub Refilled : List EnvRow → Repository → Repository × Refill → Type 0
Refilled table r out =
    (pending table out.0 ≡ pending table r)
    × IsSound table out.0
    × (((out.1 ≡ ready) × (0 < length out.0.row_buffer))
        ⊎ ((out.1 ≡ break) × (pending table r ≡ [])))

fetched_lem :
    (table page : List EnvRow) (last offset : ℕ) (checker : Option Bool) (r : Repository)
    → r.stop_db_reads ≡ false
    → r.row_buffer ≡ []
    → IsSound table r
    → page ++ active_after table (job_of r) last ≡ unread table r
    → (page ≡ [] → unread table r ≡ [])
    → Refilled table r (after_fetch (take_fetched checker (page, last, offset) r))
unfolding after_fetch take_fetched
fetched_lem table [] last offset checker r going buffer s split_page empty =
    let no = no_rows_lem table checker r going (empty refl) in
    (no.0, no.1, inr (refl, ap (λ b. b ++ unread table r) buffer ∙ empty refl))
fetched_lem table (row ∷ more) last offset checker r going buffer s split_page empty = (
  ap (λ b. (b ++ (row ∷ more)) ++ active_after table (job_of r) last) buffer
      ∙ split_page
      ∙ ap (λ b. b ++ unread table r) (sym buffer),
  (λ h. absurd (cc (split_page, s.0 h)), λ h. absurd (cc (going, h))),
  inl (refl, omega (arith, length-append r.row_buffer (row ∷ more))),
)

-- A moment in which the fetch answers with the table.
abbrev pub Answers : List EnvRow → Moment → Type 0
Answers table m = m.reply ≡ answered table

take-empty {ℓ} : {A : Type ℓ} (n : ℕ) (xs : List A) → 0 < n → take n xs ≡ [] → xs ≡ []
take-empty zero xs h e = absurd (omega (arith, h))
take-empty (suc n) [] h e = refl
take-empty (suc n) (x ∷ xs) h e = absurd (cc e)

pub asked-fields :
    (args : FetchArgs) (r : Repository)
    → (get_or_start_fetch_task args r).0
      ≡ record r { pending_fetch = (get_or_start_fetch_task args r).0.pending_fetch }
unfolding get_or_start_fetch_task
asked-fields args r =
    if_elim (λ (q : Repository × Bool). q.0 ≡ record r { pending_fetch = q.0.pending_fetch })
      (is_pending args r.pending_fetch) _ _ refl refl

fetch_lem :
    (table : List EnvRow) (limit : ℕ) (m : Moment) (r : Repository)
    → IsAbove row_id 0 table
    → 0 < limit
    → Answers table m
    → r.stop_db_reads ≡ false
    → r.row_buffer ≡ []
    → IsSound table r
    → Refilled table r (after_fetch (fetch_rows_async limit m r))
unfolding fetch_rows_async await_fetch
fetch_lem table limit m r a positive answers going buffer s =
    subst (λ reply. Refilled table r (after_fetch (await_fetch args m reply asked))) (sym answers)
      (subst
        (λ (x : Repository). Refilled table r (after_fetch (await_fetch args m (answered table) x)))
        (sym (asked-fields args r)) fetched_page)
  where
    args : FetchArgs
    args = fetch_args limit r

    asked : Repository
    asked = (get_or_start_fetch_task args r).0

    fetched_page : Refilled table r (
        after_fetch (
          take_fetched m.checker
            (fetch_rows_snapshot r.manager_job_id r.job_id args table)
            (record r { pending_fetch = none })))
    fetched_page =
        let snapshot = fetch_rows_snapshot r.manager_job_id r.job_id args table in
        let page = snapshot_lem table limit r a in
        fetched_lem table snapshot.0 snapshot.1 snapshot.2 m.checker
          (record r { pending_fetch = none }) going buffer s
          (ap (λ xs. xs ++ active_after table (job_of r) snapshot.1) page.0
            ∙ ap (λ ys. take limit (unread table r) ++ ys) page.1
            ∙ take-append-drop limit (unread table r))
          (λ e. take-empty limit (unread table r) positive (sym page.0 ∙ e))

pub refill_lem :
    (table : List EnvRow) (limit : ℕ) (m : Moment) (r : Repository)
    → IsAbove row_id 0 table
    → 0 < limit
    → Answers table m
    → r.stop_db_reads ≡ false
    → IsSound table r
    → Refilled table r (refill limit m r.row_buffer r)
unfolding refill
refill_lem table limit m r a positive answers going s = by_buffer r.row_buffer refl
  where
    by_buffer :
        (buffer : List EnvRow) → r.row_buffer ≡ buffer → Refilled table r (refill limit m buffer r)
    by_buffer [] e = fetch_lem table limit m r a positive answers going e s
    by_buffer (row ∷ rows) e =
        (refl, s, inl (refl, ground (arith, ap (λ (xs : List EnvRow). length xs) e)))
