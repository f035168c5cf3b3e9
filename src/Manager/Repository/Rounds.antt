-- ===== src/Manager/Repository/Rounds.antt =====
-- What a round, and then the rounds together, reserve of a table that does not change.
use safactory.Base.{
  string_eq, nat_eq, Bool, IsAbove, List, Option, [], ap, append-nil, append_assoc, arith, drop,
  false, if◌then◌else◌, inl, inr, leb, length, max, none, refl, some, subst, suc, sym, take, true,
  zero, ℕ, ◌++◌, ◌+◌, ◌-◌, ◌<◌, ◌||◌, ◌∙◌, ◌≡◌, ◌≤◌, ◌⊎◌, length-append, length-take,
}
use safactory.Data.Environments.{EnvRow}
use safactory.Manager.Repository.{
  Repository, Moment, Refill, drain_buffer, go_on, refill, reserve_loop, break, error, ready,
}
use safactory.Manager.Repository.Queue.{row_id, IsSound, drop-split, pending, take-split, unread}
use safactory.Manager.Repository.Refills.{refill_lem, Answers, Refilled}

-- So many of the pending rows are reserved after those that are reserved already.
abbrev pub Reserves :
    List EnvRow → ℕ → List EnvRow → List EnvRow → Repository × Option (List EnvRow) → Type 0
Reserves table k reserved rows out =
    (out.1 ≡ some (reserved ++ take k rows))
    × (pending table out.0 ≡ drop k rows)
    × IsSound table out.0

Reserves-none :
    (table : List EnvRow) (k : ℕ) (reserved : List EnvRow) (r : Repository)
    → (k ≡ 0) ⊎ (pending table r ≡ [])
    → IsSound table r
    → Reserves table k reserved (pending table r) (r, some reserved)
Reserves-none table k reserved r (inl e) s =
    subst (λ n. Reserves table n reserved (pending table r) (r, some reserved)) (sym e)
      (ap some (sym (append-nil reserved)), refl, s)
Reserves-none table zero reserved r (inr e) s = (ap some (sym (append-nil reserved)), refl, s)
Reserves-none table (suc k) reserved r (inr e) s = (
  ap some (sym (append-nil reserved)) ∙ ap (λ xs. some (reserved ++ take (suc k) xs)) (sym e),
  e ∙ ap (λ (xs : List EnvRow). drop (suc k) xs) (sym e),
  s,
)

pub stopped-pending :
    (table : List EnvRow) (r : Repository)
    → IsSound table r
    → r.stop_db_reads ≡ true
    → pending table r ≡ []
stopped-pending table r s h = ap (λ b. b ++ unread table r) (s.1 h).0 ∙ s.0 (s.1 h).1

-- The rows that are drained, and then those of the rest of the loop.
pub drained :
    (table : List EnvRow) (k : ℕ) (reserved : List EnvRow) (r : Repository)
    (out : Repository × Option (List EnvRow))
    → let rows = take k r.row_buffer in
      let r2 = record r { row_buffer = drop k r.row_buffer } in
      Reserves table (k - length rows) (reserved ++ rows) (pending table r2) out
      → Reserves table k reserved (pending table r) out
drained table k reserved r out h =
    let rows = take k r.row_buffer in
    let left = drop k r.row_buffer ++ unread table r in
    (
      h.0
          ∙ ap some (append_assoc reserved rows (take (k - length rows) left))
          ∙ ap (λ xs. some (reserved ++ xs)) (take-split k r.row_buffer (unread table r)),
      h.1 ∙ drop-split k r.row_buffer (unread table r),
      h.2,
    )

-- After a refill: the loop ends with nothing left, or drains and goes on.
after_refill :
    (table : List EnvRow) (requested fuel : ℕ) (reserved : List EnvRow) (r : Repository)
    (q : Repository × Refill) (rest : Repository × Option (List EnvRow))
    → let k = requested - length reserved in
      let rows = take k q.0.row_buffer in
      let r2 = record q.0 { row_buffer = drop k q.0.row_buffer } in
      0 < k
      → requested ≤ length reserved + suc fuel
      → Refilled table r q
      → (IsSound table r2
          → requested ≤ length (reserved ++ rows) + fuel
          → Reserves table
              (requested - length (reserved ++ rows))
              (reserved ++ rows)
              (pending table r2)
              rest)
      → Reserves table k reserved
          (pending table r)
          (go_on q.1 (q.0, some reserved) (q.0, none) rest)
unfolding go_on
after_refill table requested fuel reserved r (q, break) rest missing enough filled next =
    subst (λ xs. Reserves table (requested - length reserved) reserved xs (q, some reserved))
      filled.0
      (Reserves-none table (requested - length reserved) reserved q
        (inr (filled.0 ∙ nothing_left filled.2)) filled.1)
  where
    nothing_left :
        ((break ≡ ready) × (0 < length q.row_buffer)) ⊎ ((break ≡ break) × (pending table r ≡ []))
        → pending table r ≡ []
    nothing_left (inl h) = absurd (cc h.0)
    nothing_left (inr h) = h.1
after_refill table requested fuel reserved r (q, error) rest missing enough filled next =
    absurd (impossible filled.2)
  where
    impossible :
        ((error ≡ ready) × (0 < length q.row_buffer)) ⊎ ((error ≡ break) × (pending table r ≡ []))
        → ⊥
    impossible (inl h) = cc h.0
    impossible (inr h) = cc h.0
after_refill table requested fuel reserved r (q, ready) rest missing enough filled next =
    by_rows filled.2
  where
    k : ℕ
    k = requested - length reserved

    rows : List EnvRow
    rows = take k q.row_buffer

    by_rows :
        ((ready ≡ ready) × (0 < length q.row_buffer)) ⊎ ((ready ≡ break) × (pending table r ≡ []))
        → Reserves table k reserved (pending table r) rest
    by_rows (inr h) = absurd (cc h.0)
    by_rows (inl h) =
        let added = length-append reserved rows in
        let taken = length-take k q.row_buffer in
        let sound : IsSound table (record q { row_buffer = drop k q.row_buffer }) = (
          filled.1.0,
          λ e. absurd (ground (arith, h.1, ap (λ (xs : List EnvRow). length xs) (filled.1.1 e).0)),
        ) in
        let rest_lem = next sound (omega (arith, added, taken, missing, enough, h.1)) in
        let same : requested - length (reserved ++ rows) ≡ k - length rows = omega (arith, added) in
        subst (λ xs. Reserves table k reserved xs rest) filled.0
          (drained table k reserved q rest (
            subst
              (λ n.
                Reserves table n (reserved ++ rows)
                  (pending table (record q { row_buffer = drop k q.row_buffer })) rest)
              same rest_lem))

pub reserve_loop_lem :
    (table : List EnvRow) (fuel requested batch : ℕ) (moments : ℕ → Moment) (reserved : List EnvRow)
    (r : Repository)
    → IsAbove row_id 0 table
    → 0 < batch
    → ((n : ℕ) → Answers table (moments n))
    → requested ≤ length reserved + fuel
    → IsSound table r
    → Reserves table
        (requested - length reserved)
        reserved
        (pending table r)
        (reserve_loop fuel requested batch moments reserved r)
unfolding reserve_loop drain_buffer
reserve_loop_lem table zero requested batch moments reserved r a positive answers enough s =
    Reserves-none table (requested - length reserved) reserved r (inl (omega (arith, enough))) s
reserve_loop_lem table (suc fuel) requested batch moments reserved r a positive answers enough s =
    let k = requested - length reserved in
    let q = refill (max batch k) (moments 0) r.row_buffer r in
    let r2 = record q.0 { row_buffer = drop k q.0.row_buffer } in
    let rows = take k q.0.row_buffer in
    by_end (leb requested (length reserved)) r.stop_db_reads refl refl
      (λ going.
        refill_lem table (max batch k) (moments 0) r a (omega (arith, positive)) (answers 0) going
          s)
      (λ sound more.
        reserve_loop_lem table fuel requested batch (λ n. moments (n + 1)) (reserved ++ rows) r2 a
          positive (λ n. answers (n + 1)) more sound)
  where
    k : ℕ
    k = requested - length reserved

    q : Repository × Refill
    q = refill (max batch k) (moments 0) r.row_buffer r

    rows : List EnvRow
    rows = take k q.0.row_buffer

    r2 : Repository
    r2 = record q.0 { row_buffer = drop k q.0.row_buffer }

    rest : Repository × Option (List EnvRow)
    rest = reserve_loop fuel requested batch (λ n. moments (n + 1)) (reserved ++ rows) r2

    by_end :
        (enough_rows stopped : Bool)
        → leb requested (length reserved) ≡ enough_rows
        → r.stop_db_reads ≡ stopped
        → (r.stop_db_reads ≡ false → Refilled table r q)
        → (IsSound table r2
            → requested ≤ length (reserved ++ rows) + fuel
            → Reserves table
                (requested - length (reserved ++ rows))
                (reserved ++ rows)
                (pending table r2)
                rest)
        → Reserves table k reserved (pending table r) (
            if enough_rows || stopped
            then (r, some reserved)
            else go_on q.1 (q.0, some reserved) (q.0, none) rest)
    by_end true stopped e1 e2 filled next = Reserves-none table k reserved r (inl (ground arith)) s
    by_end false true e1 e2 filled next =
        Reserves-none table k reserved r (inr (stopped-pending table r s e2)) s
    by_end false false e1 e2 filled next =
        after_refill table requested fuel reserved r q rest (ground arith) enough (filled e2) next
