-- ===== src/Manager/Repository/Queue.antt =====
-- On a table that does not change, the repository hands out the active rows in the order of their
-- ids: a queue of the rows that are buffered and those after the cursor.
use safactory.Base.{
  string_eq, nat_eq, List, [], ap, drop, length, suc, take, true, zero, ℕ, ◌++◌, ◌-◌, ◌∙◌, ◌∷◌, ◌≡◌,
  arith, String,
}
use safactory.Data.Environments.{EnvRow, or_job}
use safactory.Data.Environments.Active.{active_after}
use safactory.Manager.Repository.{Repository}

abbrev pub row_id : EnvRow → ℕ
row_id row = row.id

-- The job whose rows the repository reads.
abbrev pub job_of : Repository → String
job_of r = or_job r.manager_job_id r.job_id

-- The active rows of the repository's job that it has not read yet.
abbrev pub unread : List EnvRow → Repository → List EnvRow
unread table r = active_after table (job_of r) r.last_seen_id

-- The rows that it has not reserved yet.
abbrev pub pending : List EnvRow → Repository → List EnvRow
pending table r = r.row_buffer ++ unread table r

-- Reading is given up only when nothing is left.
abbrev pub IsSound : List EnvRow → Repository → Type 0
IsSound table r =
    (r.db_processing_done_cached ≡ true → unread table r ≡ [])
    × (r.stop_db_reads ≡ true → (r.row_buffer ≡ []) × (r.db_processing_done_cached ≡ true))

minus_zero : (k : ℕ) → k - 0 ≡ k
minus_zero k = omega arith

minus_suc : (k n : ℕ) → suc k - suc n ≡ k - n
minus_suc k n = omega arith

pub take-split {ℓ} :
    {A : Type ℓ} (k : ℕ) (xs ys : List A)
    → take k xs ++ take (k - length (take k xs)) (drop k xs ++ ys) ≡ take k (xs ++ ys)
take-split zero xs ys = ap (λ n. take n (xs ++ ys)) (minus_zero 0)
take-split (suc k) [] ys = ap (λ n. take n ys) (minus_zero (suc k))
take-split (suc k) (x ∷ xs) ys =
    ap (λ zs. x ∷ zs)
      (ap (λ n. take k xs ++ take n (drop k xs ++ ys)) (minus_suc k (length (take k xs)))
        ∙ take-split k xs ys)

pub drop-split {ℓ} :
    {A : Type ℓ} (k : ℕ) (xs ys : List A)
    → drop (k - length (take k xs)) (drop k xs ++ ys) ≡ drop k (xs ++ ys)
drop-split zero xs ys = ap (λ n. drop n (xs ++ ys)) (minus_zero 0)
drop-split (suc k) [] ys = ap (λ n. drop n ys) (minus_zero (suc k))
drop-split (suc k) (x ∷ xs) ys =
    ap (λ n. drop n (drop k xs ++ ys)) (minus_suc k (length (take k xs))) ∙ drop-split k xs ys
