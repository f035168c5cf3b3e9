-- ===== src/Manager/CircuitBreaker/Examples.antt =====
-- Tests of the circuit breaker, and its theorems at concrete inputs.
use safactory.Base.{
  refl, string_eq, nat_eq, List, String, [], count_if, false, if◌then◌else◌, length, none, some,
  true, ◌<◌, ◌==◌, ◌∷◌, ◌≡◌, ◌≤◌,
}
use safactory.Manager.CircuitBreaker.{
  Config, StartResult, Strings, any_within, append_bounded, clamp, evaluate, failed, failure_rate,
  init, is_skipped, is_timeout, open_if, or_empty, or_one, rate_reached, record_result, sample_of,
  status_is, timed_out, timeout_rate, with_sample,
}
use safactory.Manager.CircuitBreaker.Window.{run, counted, last, trailing}
use safactory.Manager.CircuitBreaker.Opening.{closed_lem}

-- Strings that are in lower case and have no blanks.
abbrev plain : Strings
plain = record { lower = λ s. s; strip = λ s. s; join = first; within = λ m s. m == s }
  where
    first : List String → String
    first [] = ""
    first (s ∷ ss) = if s == "" then first ss else s

abbrev limits : Config
limits = record {
  circuit_breaker_enabled = true;
  circuit_breaker_window = 3;
  circuit_breaker_min_samples = 2;
  circuit_breaker_failure_rate = record { over = 4; under = 5 };
  circuit_breaker_timeout_rate = record { over = 1; under = 2 };
  circuit_breaker_consecutive_timeouts = 5;
}

abbrev good : StartResult
good = record {
  status = some "succeeded";
  truncated = false;
  error_text = none;
  timeout_layer = none;
  metrics_error = none;
  metrics_error_text = none;
}

abbrev bad : StartResult
bad = record good { status = some "failed" }

abbrev late : StartResult
late = record good { status = some "failed"; error_text = some "timed out" }

abbrev cut : StartResult
cut = record good { status = some "truncated"; truncated = true }

abbrev mixed : List StartResult
mixed = good ∷ bad ∷ cut ∷ good ∷ bad ∷ []

stays_closed : (run plain (init limits) mixed).opened ≡ false
unfolding init or_one clamp record_result is_skipped status_is or_empty sample_of is_timeout
    any_within with_sample append_bounded open_if evaluate rate_reached
stays_closed = refl

opens_on_timeouts : (run plain (init limits) (good ∷ late ∷ [])).reason ≡ some (timeout_rate 1 2)
unfolding init or_one clamp record_result is_skipped status_is or_empty sample_of is_timeout
    any_within with_sample append_bounded open_if evaluate rate_reached
opens_on_timeouts = refl

opens_on_failures : (run plain (init limits) (bad ∷ bad ∷ [])).reason ≡ some (failure_rate 2 2)
unfolding init or_one clamp record_result is_skipped status_is or_empty sample_of is_timeout
    any_within with_sample append_bounded open_if evaluate rate_reached
opens_on_failures = refl

closed_lem_example :
    let hist = counted plain mixed in
    let w = last (init limits).window hist in
    (trailing hist < (init limits).consecutive_timeout_limit)
    × ((init limits).min_samples ≤ length w
        → (rate_reached (count_if failed w) (length w) (init limits).failure_rate_threshold ≡ false)
          × (rate_reached (count_if timed_out w) (length w) (init limits).timeout_rate_threshold
              ≡ false))
closed_lem_example = closed_lem plain limits mixed refl stays_closed
