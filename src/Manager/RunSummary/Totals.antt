-- ===== src/Manager/RunSummary/Totals.antt =====
-- How the counts of a summary add up, and what its status says.
use safactory.Base.{
  nat_eq, string_eq, Bool, Dict, List, String, [], arith, count_if, false, length, not, refl, true,
  ℕ, ◌&&◌, ◌+◌, ◌==◌, ◌↔◌, ◌∷◌, ◌≡◌, ◌≤◌, ◌-◌, ◌<◌, Bool-cases, ap, if◌then◌else◌, inl, inr, subst,
  sym,
}
use safactory.Manager.RunSummary.{run_status, status_is, run_summary}

count_both {ℓ} :
    {A : Type ℓ} (f g : A → Bool) (xs : List A)
    → ((x : A) → (f x && g x) ≡ false)
    → count_if f xs + count_if g xs ≤ length xs
count_both f g [] apart = omega arith
count_both f g (x ∷ xs) apart = ground (arith, apart x, count_both f g xs apart)

apart : (status : String) → (status_is "succeeded" status && status_is "truncated" status) ≡ false
unfolding status_is
apart status = elim (Bool-cases (string_eq.beq status "succeeded")) [
  | inl same ↦
      subst (λ s. (status_is "succeeded" s && status_is "truncated" s) ≡ false)
        (sym ((string_eq.beq_iff status "succeeded").0 same)) refl
  | inr other ↦ ap (λ b. b && status_is "truncated" status) other
]

abbrev pub counted : String → Dict String String → ℕ
counted wanted results = count_if (λ r. status_is wanted r.1) results

abbrev IsSuccess : String → Type 0
IsSuccess status = status ≡ "succeeded"

differs : (s : String) → string_eq.beq s "succeeded" ≡ false → IsSuccess s → ⊥
differs s other e = cc (other, (string_eq.beq_iff s "succeeded").1 e)

chain_lem :
    (a b c d : Bool)
    → IsSuccess (
        if a
        then "cancelled"
        else if b
        then "failed_pool_stalled"
        else if c
        then "completed_with_failures"
        else if d
        then "completed_with_truncations"
        else "succeeded")
      ↔ ((a ≡ false) × (b ≡ false) × (c ≡ false) × (d ≡ false))
chain_lem true b c d = (λ e. absurd (differs "cancelled" refl e), λ h. absurd (cc h.0))
chain_lem false true c d =
    (λ e. absurd (differs "failed_pool_stalled" refl e), λ h. absurd (cc h.1))
chain_lem false false true d =
    (λ e. absurd (differs "completed_with_failures" refl e), λ h. absurd (cc h.2))
chain_lem false false false true =
    (λ e. absurd (differs "completed_with_truncations" refl e), λ h. absurd (cc h.3))
chain_lem false false false false = ground arith

run_status_lem :
    (cancelled stalled : Bool) (failed truncated : ℕ)
    → (run_status cancelled stalled failed truncated ≡ "succeeded")
      ↔ ((cancelled ≡ false) × (stalled ≡ false) × (failed ≡ 0) × (truncated ≡ 0))
unfolding run_status
run_status_lem cancelled stalled failed truncated = ground (
  arith,
  chain_lem cancelled stalled (not (failed == 0)) (not (truncated == 0)),
  nat_eq.beq_iff failed 0,
  nat_eq.beq_iff truncated 0,
)

none_lem :
    (b : Bool) → IsSuccess (if b then "failed_pool_stalled" else "failed_no_episodes") → 0 < 0
none_lem true e = absurd (differs "failed_pool_stalled" refl e)
none_lem false e = absurd (differs "failed_no_episodes" refl e)

-- The counts of a run add up to its episodes, and its status is `succeeded` exactly when it has an
-- episode, was not cancelled, its pool did not stall, and every episode succeeded.
pub summary_lem :
    (stop_reason : String) (cancelled : Bool) (results : Dict String String)
    → let s = run_summary stop_reason cancelled results in
      (s.succeeded_episodes + s.truncated_episodes + s.failed_episodes ≡ s.total_episodes)
      × (s.total_episodes ≡ length results)
      × ((s.status ≡ "succeeded") ↔ (
          (0 < length results)
          × (cancelled ≡ false)
          × ((stop_reason == "pool_stalled") ≡ false)
          × (counted "succeeded" results ≡ length results)))
unfolding run_summary
summary_lem stop_reason cancelled [] = (
  refl,
  refl,
  (
    λ e. absurd (omega (arith, none_lem (stop_reason == "pool_stalled") e)),
    λ h. absurd (omega (arith, h.0)),
  ),
)
summary_lem stop_reason cancelled (result ∷ results) =
    let all = result ∷ results in
    let bound =
      count_both (λ r. status_is "succeeded" r.1) (λ r. status_is "truncated" r.1) all
        (λ r. apart r.1) in
    let succeeded = counted "succeeded" all in
    let truncated = counted "truncated" all in
    let chain =
      run_status_lem cancelled (stop_reason == "pool_stalled") (length all - succeeded - truncated)
        truncated in
    (omega (arith, bound), refl, ground (arith, bound, chain))
