-- ===== src/Manager/CircuitBreaker.antt =====
-- manager/simulation_worker.py: the circuit breaker of a run, which stops the scheduling of
-- episodes once too many fail or time out. A threshold is a fraction, and is compared exactly; the
-- float division of the source rounds. Python's string methods are an argument.
pub mod Window
pub mod Opening
pub mod Examples
use safactory.Base.{
  string_eq, option_eq, nat_eq, Bool, List, Option, String, [], count_if, drop, false,
  if◌then◌else◌, leb, length, ltb, max, min, none, not, some, suc, true, zero, ℕ, ◌*◌, ◌++◌, ◌+◌,
  ◌-◌, ◌==◌, ◌||◌, ◌∷◌,
}

-- `str.lower`, `str.strip`, `" ".join` and `in`.
pub record Strings : Type 0 where
  pub lower : String → String
  pub strip : String → String
  pub join : List String → String
  pub within : String → String → Bool

-- The part of `SimulationStartResult` that the breaker reads, with three entries of its metrics.
pub record StartResult : Type 0 where
  pub status : Option String
  pub truncated : Bool
  pub error_text : Option String
  pub timeout_layer : Option String
  pub metrics_error : Option String
  pub metrics_error_text : Option String

pub record Fraction : Type 0 where
  pub over : ℕ
  pub under : ℕ

-- The part of `SimulationRunConfig` that the breaker reads.
pub record Config : Type 0 where
  pub circuit_breaker_enabled : Bool
  pub circuit_breaker_window : ℕ
  pub circuit_breaker_min_samples : ℕ
  pub circuit_breaker_failure_rate : Fraction
  pub circuit_breaker_timeout_rate : Fraction
  pub circuit_breaker_consecutive_timeouts : ℕ

-- Why it opened, with the numbers that the source's text states.
pub data Reason : Type 0 where
  consecutive_timeouts : ℕ → Reason
  failure_rate timeout_rate : ℕ → ℕ → Reason

-- A sample: failed, timed out. The newest stands last.
pub record Breaker : Type 0 where
  pub enabled : Bool
  pub window : ℕ
  pub min_samples : ℕ
  pub failure_rate_threshold : Fraction
  pub timeout_rate_threshold : Fraction
  pub consecutive_timeout_limit : ℕ
  pub samples : List (Bool × Bool)
  pub consecutive_timeouts : ℕ
  pub opened : Bool
  pub reason : Option Reason

-- `x or 1`
unfoldable pub or_one : ℕ → ℕ
or_one zero = 1
or_one (suc n) = suc n

-- `min(1.0, rate)`; a fraction is never below 0.
unfoldable pub clamp : Fraction → Fraction
clamp f = record f { over = min f.over f.under }

unfoldable pub init : Config → Breaker
unfolding or_one clamp
init cfg =
    let window = max 1 (or_one cfg.circuit_breaker_window) in
    record {
      enabled = cfg.circuit_breaker_enabled;
      window = window;
      min_samples = max 1 (min window (or_one cfg.circuit_breaker_min_samples));
      failure_rate_threshold = clamp cfg.circuit_breaker_failure_rate;
      timeout_rate_threshold = clamp cfg.circuit_breaker_timeout_rate;
      consecutive_timeout_limit = max 1 (or_one cfg.circuit_breaker_consecutive_timeouts);
      samples = [];
      consecutive_timeouts = 0;
      opened = false;
      reason = none;
    }

-- `deque(maxlen=window).append`: a full deque drops its oldest entry.
unfoldable pub append_bounded {ℓ} : {A : Type ℓ} → ℕ → List A → A → List A
append_bounded window xs x = drop (length xs + 1 - window) (xs ++ (x ∷ []))

abbrev pub failed : Bool × Bool → Bool
failed (f, t) = f

abbrev pub timed_out : Bool × Bool → Bool
timed_out (f, t) = t

-- `hits / samples >= threshold`
unfoldable pub rate_reached : ℕ → ℕ → Fraction → Bool
rate_reached hits samples f = leb (f.over * samples) (hits * f.under)

unfoldable pub evaluate : Breaker → Option Reason
unfolding rate_reached
evaluate b =
    let n = length b.samples in
    let failures = count_if failed b.samples in
    let timeouts = count_if timed_out b.samples in
    if leb b.consecutive_timeout_limit b.consecutive_timeouts
    then some (consecutive_timeouts b.consecutive_timeouts)
    else if ltb n b.min_samples
    then none
    else if rate_reached failures n b.failure_rate_threshold
    then some (failure_rate failures n)
    else if rate_reached timeouts n b.timeout_rate_threshold
    then some (timeout_rate timeouts n)
    else none

-- `str(x or "")`
unfoldable pub or_empty : Option String → String
or_empty none = ""
or_empty (some s) = s

abbrev pub timeout_markers : List String
timeout_markers =
    "timed out" ∷ "timeoutexpired" ∷ "command timed out" ∷ "docker exec timed out" ∷ []

unfoldable pub any_within : Strings → String → List String → Bool
any_within str text [] = false
any_within str text (m ∷ ms) = str.within m text || any_within str text ms

unfoldable pub is_timeout : Strings → StartResult → Bool
unfolding any_within or_empty
is_timeout str r =
    r.truncated
    || not (str.strip (or_empty r.timeout_layer) == "")
    || any_within str
        (str.lower (
          str.join (
            or_empty r.error_text ∷ or_empty r.metrics_error ∷ or_empty r.metrics_error_text ∷ [])))
        timeout_markers

unfoldable pub status_is : Strings → StartResult → String → Bool
unfolding or_empty
status_is str r word = str.lower (or_empty r.status) == word

unfoldable pub sample_of : Strings → StartResult → Bool × Bool
unfolding status_is is_timeout
sample_of str r = (not (status_is str r "succeeded"), is_timeout str r)

unfoldable pub is_skipped : Strings → StartResult → Bool
unfolding status_is
is_skipped str r = r.truncated || status_is str r "truncated"

unfoldable pub with_sample : Breaker → Bool × Bool → Breaker
unfolding append_bounded
with_sample b s = record b {
  samples = append_bounded b.window b.samples s;
  consecutive_timeouts = if timed_out s then b.consecutive_timeouts + 1 else 0;
}

unfoldable pub open_if : Breaker → Option Reason → Breaker × Bool
open_if b none = (b, false)
open_if b (some reason) = (record b { reason = some reason; opened = true }, true)

-- The second test of `_opened`, under the lock, is the first one again in a single step.
unfoldable pub record_result : Strings → Breaker → StartResult → Breaker × Bool
unfolding is_skipped sample_of with_sample open_if evaluate
record_result str b r =
    if not b.enabled || b.opened
    then (b, false)
    else if is_skipped str r
    then (b, false)
    else let b' = with_sample b (sample_of str r) in open_if b' (evaluate b')
