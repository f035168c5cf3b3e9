-- ===== src/Manager/ResumeCleanup/Paths.antt =====
-- Each path that is removed belongs to one unfinished session.
use safactory.Base.{
  string_eq, lookup, insert, IsUnique, insert-IsUnique, Dict, List, Option, String, [], none, some,
  ◌==◌, ◌∷◌, ◌≡◌, ◌⊎◌, inl, inr, Bool, not, ◌||◌, true, false, refl, arith, sym, ap, Bool-cases,
  ◌∙◌, ◌≢◌, subst,
}
use safactory.Data.Environments.{EnvRow}
use safactory.Manager.ResumeCleanup.Lookups.{
  found_in-insert, keeps-insert, lookup_empty, lookup_inserted,
}
use safactory.Manager.ResumeCleanup.{
  Selected, selected, path_collision, and_then, keep_target, select_row, select_targets,
  select_generated,
}

abbrev pub IsAmong : EnvRow → List EnvRow → Type 0
IsAmong row [] = ⊥
IsAmong row (r ∷ rows) = (row ≡ r) ⊎ IsAmong row rows

module _ (strip path_of : String → String) (exists : String → Bool) where
  -- A session of a row that has a result path.
  abbrev pub HasResult : EnvRow → Type 0
  HasResult row = (strip row.env_id ≢ "") × (exists (path_of (strip row.env_id)) ≡ true)

  nothing :
      (row : EnvRow)
      → HasResult row
      → ((strip row.env_id == "") || not (exists (path_of (strip row.env_id)))) ≡ true
      → ⊥
  nothing row has h = ground (arith, string_eq.beq_iff (strip row.env_id) "", has.0, has.1)

  something :
      (row : EnvRow)
      → ((strip row.env_id == "") || not (exists (path_of (strip row.env_id)))) ≡ false
      → HasResult row
  something row h =
      (λ blank. absurd (ground (arith, string_eq.beq_iff (strip row.env_id) "")), ground arith)

  -- The target of a path: it carries the job and the stripped session of a row with this path.
  abbrev pub IsTarget : String → List EnvRow → String → EnvRow → Type 0
  IsTarget job_id all path target =
      (row : EnvRow) × (IsAmong row all)
      × HasResult row
      × (path ≡ path_of (strip row.env_id))
      × (target ≡ record row { job_id = job_id; env_id = strip row.env_id })

  abbrev pub AreTargets : String → List EnvRow → Dict String EnvRow → Type 0
  AreTargets job_id all d =
      IsUnique d
      × ((path : String) (target : EnvRow)
          → lookup path d ≡ some target
          → IsTarget job_id all path target)

  -- The path of the row's session has a target of this session.
  abbrev pub IsTaken : Dict String EnvRow → EnvRow → Type 0
  IsTaken d row =
      (target : EnvRow) × (lookup (path_of (strip row.env_id)) d ≡ some target)
      × (target.env_id ≡ strip row.env_id)

  abbrev pub Keeps : Dict String EnvRow → Dict String EnvRow → Type 0
  Keeps d e = (path : String) (t : EnvRow) → lookup path d ≡ some t → lookup path e ≡ some t

  -- Two rows of different sessions with one path.
  abbrev pub AreColliding : List EnvRow → String → String → String → Type 0
  AreColliding all existing session path =
      (a : EnvRow) × (b : EnvRow) × (IsAmong a all)
      × (IsAmong b all)
      × (strip a.env_id ≡ existing)
      × (strip b.env_id ≡ session)
      × (existing ≢ session)
      × (path_of existing ≡ path)
      × (path_of session ≡ path)

  abbrev pub IsSelection :
      String → List EnvRow → List EnvRow → Dict String EnvRow → Selected → Type 0
  IsSelection job_id all rows d (selected e) =
      AreTargets job_id all e
      × Keeps d e
      × ((row : EnvRow) → IsAmong row rows → HasResult row → IsTaken e row)
  IsSelection job_id all rows d (path_collision existing session path) =
      AreColliding all existing session path

  after :
      (job_id : String) (all : List EnvRow) (row : EnvRow) (rows : List EnvRow)
      (d e : Dict String EnvRow) (o : Selected)
      → Keeps d e
      → (HasResult row → IsTaken e row)
      → IsSelection job_id all rows e o
      → IsSelection job_id all (row ∷ rows) d o
  after job_id all row rows d e (selected f) kept taken rest = (
    rest.0,
    λ path t h. rest.1 path t (kept path t h),
    λ r i has. elim i [
      | inl same ↦
          let (t, found, env) = taken (subst HasResult same has) in
          subst (IsTaken f) (sym same) (t, rest.1 (path_of (strip row.env_id)) t found, env)
      | inr later ↦ rest.2 r later has
    ],
  )
  after job_id all row rows d e (path_collision existing session path) kept taken rest = rest

  -- What the selection from all rows comes to.
  abbrev pub IsResumed : String → List EnvRow → Selected → Type 0
  IsResumed job_id rows (selected d) =
      AreTargets job_id rows d × ((row : EnvRow) → IsAmong row rows → HasResult row → IsTaken d row)
  IsResumed job_id rows (path_collision existing session path) =
      AreColliding rows existing session path

  module _ (strip-strip : (s : String) → strip (strip s) ≡ strip s) where
    keep_target_lem :
        (job_id : String) (all : List EnvRow) (row : EnvRow) (d : Dict String EnvRow)
        (o : Option EnvRow)
        → IsAmong row all
        → HasResult row
        → AreTargets job_id all d
        → lookup (path_of (strip row.env_id)) d ≡ o
        → IsSelection job_id all (row ∷ []) d (keep_target strip path_of exists job_id row o d)
    unfolding keep_target
    keep_target_lem job_id all row d none there has good e =
        let p = path_of (strip row.env_id) in
        let t : EnvRow = record row { job_id = job_id; env_id = strip row.env_id } in
        (
          (
            insert-IsUnique p t d good.0,
            λ path target h. elim (found_in-insert p path t target d h) [
              | inl new ↦ (row, there, has, sym new.0, sym new.1)
              | inr old ↦ good.1 path target old
            ],
          ),
          λ path other h. keeps-insert p path t other d e h,
          λ other i has_too. elim i [
            | inl same ↦ subst (IsTaken (insert p t d)) (sym same) (t, lookup_inserted p t d, refl)
            | inr never ↦ absurd never
          ],
        )
    keep_target_lem job_id all row d (some old) there has good e =
        let (r, among, has_r, same_path, made) = good.1 (path_of (strip row.env_id)) old e in
        let env : old.env_id ≡ strip r.env_id = ap (λ (x : EnvRow). x.env_id) made in
        let stripped : strip old.env_id ≡ strip r.env_id = ap strip env ∙ strip-strip r.env_id in
        elim (Bool-cases (strip old.env_id == strip row.env_id)) [
          | inl same ↦ rw same (
            good,
            λ path other h. h,
            λ other i has_too. elim i [
              | inl is_row ↦ subst (IsTaken d) (sym is_row) (
                old,
                e,
                env
                    ∙ sym stripped
                    ∙ (string_eq.beq_iff (strip old.env_id) (strip row.env_id)).0 same,
              )
              | inr never ↦ absurd never
            ],
          )
          | inr differs ↦ rw differs (
            r,
            row,
            among,
            there,
            sym stripped,
            refl,
            λ equal.
                absurd (ground (arith, string_eq.beq_iff (strip old.env_id) (strip row.env_id))),
            ap path_of stripped ∙ sym same_path,
            refl,
          )
        ]

    select_row_lem :
        (job_id : String) (all : List EnvRow) (row : EnvRow) (d : Dict String EnvRow)
        → IsAmong row all
        → AreTargets job_id all d
        → IsSelection job_id all (row ∷ []) d (select_row strip path_of exists job_id row d)
    unfolding select_row
    select_row_lem job_id all row d there good =
        let session = strip row.env_id in
        elim (Bool-cases ((session == "") || not (exists (path_of session)))) [
          | inl skipped ↦ rw skipped (
            good,
            λ path other h. h,
            λ other i has. elim i [
              | inl same ↦ absurd (nothing row (subst HasResult same has) skipped)
              | inr never ↦ absurd never
            ],
          )
          | inr kept ↦
              let found =
                keep_target_lem job_id all row d (lookup (path_of session) d) there
                  (something row kept) good refl in
              rw kept found
        ]

    select_targets_lem :
        (job_id : String) (all rows : List EnvRow) (d : Dict String EnvRow)
        → ((r : EnvRow) → IsAmong r rows → IsAmong r all)
        → AreTargets job_id all d
        → IsSelection job_id all rows d (select_targets strip path_of exists job_id rows d)
    unfolding select_targets
    select_targets_lem job_id all [] d within good = (good, λ path t h. h, λ r i has. absurd i)
    select_targets_lem job_id all (row ∷ rows) d within good =
        go (select_row strip path_of exists job_id row d)
          (select_row_lem job_id all row d (within row (inl refl)) good)
          (λ e. select_targets_lem job_id all rows e (λ r i. within r (inr i)))
      where
        go :
            (o : Selected)
            → IsSelection job_id all (row ∷ []) d o
            → ((e : Dict String EnvRow)
                → AreTargets job_id all e
                → IsSelection job_id all rows e (select_targets strip path_of exists job_id rows e))
            → IsSelection job_id all
                (row ∷ rows)
                d
                (and_then o (select_targets strip path_of exists job_id rows))
        go (selected e) first later =
            after job_id all row rows d e (select_targets strip path_of exists job_id rows e)
              first.1 (λ has. first.2 row (inl refl) has) (later e first.0)
        go (path_collision existing session path) first later = first

    -- For a stripping that changes nothing the second time: either two rows of different sessions have
    -- one path and the exception names them, or every session of a row that has an existing
    -- path has its target, no path has two targets, and every target is a row with the job and the
    -- stripped session, and the path of this session, which is not blank and exists.
    pub select_generated_lem :
        (job_id : String) (rows : List EnvRow)
        → IsResumed job_id rows (select_generated strip path_of exists job_id rows)
    unfolding select_generated
    select_generated_lem job_id rows = result (select_targets strip path_of exists job_id rows []) (
        select_targets_lem job_id rows rows [] (λ r i. i)
          (tt, λ path t h. absurd (lookup_empty path t h)))
      where
        result : (o : Selected) → IsSelection job_id rows rows [] o → IsResumed job_id rows o
        result (selected d) found = (found.0, found.2)
        result (path_collision existing session path) found = found
