-- ===== src/Manager/CircuitBreaker/Opening.antt =====
-- When the breaker opens, and what a closed one says of the run so far.
use safactory.Base.{
  arith, Option, false, is_some, none, refl, some, sym, ◌∙◌, ◌≡◌, Bool, if◌then◌else◌, not, true,
  ◌||◌, List, [], count_if, if_elim, length, ℕ, ◌<◌, ◌∷◌, ◌≤◌, ap, subst, max, ◌-◌,
}
use safactory.Manager.CircuitBreaker.Window.{
  run, Remembers, counted, last, run-Remembers, trailing, drop-nil,
}
use safactory.Manager.CircuitBreaker.{
  Breaker, Reason, StartResult, Strings, evaluate, open_if, record_result, is_skipped, sample_of,
  with_sample, Config, Fraction, failed, init, rate_reached, timed_out, or_one,
}

-- An open breaker has its reason, which is what its samples say; a closed one has none.
pub record IsDecided (b : Breaker) : Type 0 where
  pub decided : evaluate b ≡ b.reason
  pub opened : b.opened ≡ is_some b.reason

open_if-IsDecided :
    (b : Breaker) (o : Option Reason)
    → evaluate b ≡ o
    → b.reason ≡ none
    → b.opened ≡ false
    → IsDecided (open_if b o).0
unfolding open_if evaluate
open_if-IsDecided b none e none_yet closed = record {
  decided = e ∙ sym none_yet;
  opened = ground arith;
}
open_if-IsDecided b (some reason) e none_yet closed = record { decided = e; opened = refl }

record_result-IsDecided :
    (str : Strings) (b : Breaker) (r : StartResult)
    → IsDecided b
    → IsDecided (record_result str b r).0
unfolding record_result with_sample
record_result-IsDecided str b r d = recorded (not b.enabled || b.opened) (is_skipped str r) refl
  where
    b' : Breaker
    b' = with_sample b (sample_of str r)

    recorded :
        (idle skipped : Bool)
        → (not b.enabled || b.opened) ≡ idle
        → IsDecided
            (if idle
              then (b, false)
              else if skipped
              then (b, false)
              else open_if b' (evaluate b')).0
    recorded true skipped e = d
    recorded false true e = d
    recorded false false e =
        open_if-IsDecided b' (evaluate b') refl (ground (arith, d.opened)) (ground arith)

-- What the configuration fixes.
abbrev pub settings : Breaker → ℕ × ℕ × ℕ × Fraction × Fraction
settings b = (
  b.window, b.min_samples, b.consecutive_timeout_limit, b.failure_rate_threshold,
  b.timeout_rate_threshold,
)

settings-open_if : (b : Breaker) (o : Option Reason) → settings (open_if b o).0 ≡ settings b
unfolding open_if
settings-open_if b none = refl
settings-open_if b (some e) = refl

settings-record_result :
    (str : Strings) (b : Breaker) (r : StartResult)
    → settings (record_result str b r).0 ≡ settings b
unfolding record_result with_sample
settings-record_result str b r =
    let P = λ (q : Breaker × Bool). settings q.0 ≡ settings b in
    let b' = with_sample b (sample_of str r) in
    if_elim P (not b.enabled || b.opened) _ _ refl
      (if_elim P (is_skipped str r) _ _ refl (settings-open_if b' (evaluate b')))

settings-run :
    (str : Strings) (b : Breaker) (rs : List StartResult) → settings (run str b rs) ≡ settings b
settings-run str b [] = refl
settings-run str b (r ∷ rs) =
    settings-run str (record_result str b r).0 rs ∙ settings-record_result str b r

run-IsDecided :
    (str : Strings) (b : Breaker) (rs : List StartResult) → IsDecided b → IsDecided (run str b rs)
run-IsDecided str b [] d = d
run-IsDecided str b (r ∷ rs) d =
    run-IsDecided str (record_result str b r).0 rs (record_result-IsDecided str b r d)

init-IsDecided : (cfg : Config) → IsDecided (init cfg)
unfolding init evaluate
init-IsDecided cfg = record { decided = ground arith; opened = refl }

init-Remembers : (cfg : Config) → Remembers (init cfg) []
unfolding init last
init-Remembers cfg = record {
  positive = omega arith;
  samples = sym (drop-nil (0 - max 1 (or_one cfg.circuit_breaker_window)));
  consecutive = refl;
}

-- The numbers of a run are below the thresholds.
abbrev IsBelow : ℕ × ℕ × ℕ × Fraction × Fraction → List (Bool × Bool) → ℕ → Type 0
IsBelow (window, enough, limit, f, t) w timeouts =
    (timeouts < limit)
    × (enough ≤ length w
        → (rate_reached (count_if failed w) (length w) f ≡ false)
          × (rate_reached (count_if timed_out w) (length w) t ≡ false))

quiet-IsBelow :
    (b : Breaker) → evaluate b ≡ none → IsBelow (settings b) b.samples b.consecutive_timeouts
unfolding evaluate
quiet-IsBelow b h = (ground arith, λ enough. (ground arith, ground arith))

pub closed_lem :
    (str : Strings) (cfg : Config) (rs : List StartResult)
    → cfg.circuit_breaker_enabled ≡ true
    → (run str (init cfg) rs).opened ≡ false
    → let hist = counted str rs in
      let w = last (init cfg).window hist in
      (trailing hist < (init cfg).consecutive_timeout_limit)
      × ((init cfg).min_samples ≤ length w
          → (rate_reached (count_if failed w) (length w) (init cfg).failure_rate_threshold ≡ false)
            × (rate_reached (count_if timed_out w) (length w) (init cfg).timeout_rate_threshold
                ≡ false))
closed_lem str cfg rs on closed =
    let b = run str (init cfg) rs in
    let hist = counted str rs in
    let m = run-Remembers str (init cfg) [] rs (unfold init in on) (init-Remembers cfg) closed in
    let d = run-IsDecided str (init cfg) rs (init-IsDecided cfg) in
    let quiet : evaluate b ≡ none = ground (arith, d.decided, d.opened, closed) in
    let same = settings-run str (init cfg) rs in
    let window : b.samples ≡ last (init cfg).window hist =
      m.samples ∙ ap (λ n. last n hist) (ap (λ s. s.0) same) in
    subst (λ s. IsBelow s (last (init cfg).window hist) (trailing hist)) same
      (subst (λ w. IsBelow (settings b) w (trailing hist)) window
        (subst (IsBelow (settings b) b.samples) m.consecutive (quiet-IsBelow b quiet)))
