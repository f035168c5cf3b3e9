-- ===== src/Gateway/Binding/Lifecycle.antt =====
-- The life of a binding: active, closing, closed, and never back.
use safactory.Base.{Bool, String, arith, ℕ, ◌≤◌}
use safactory.Gateway.Binding.{
  Binding, Status, TelemetryStatus, active, begin_close, close, closed, closing, finish_close,
  increment_step_count, mark_model_stop_response_sent, mark_model_truncated, mark_truncated,
}

abbrev pub rank : Status → ℕ
rank active = 0
rank closing = 1
rank closed = 2

-- What a method of the binding may be called with.
pub data Method : Type 0 where
  closes : String → ℕ → Method
  begins_close : String → String → ℕ → Method
  finishes_close : Bool → TelemetryStatus → ℕ → Method
  truncates : String → ℕ → Method
  steps : String → Method
  truncates_model : String → String → ℕ → Method
  sends_stop : String → Method

pub call : Binding → Method → Binding
call b (closes reason now) = close b reason now
call b (begins_close reason mode now) = (begin_close b reason mode now).0
call b (finishes_close drained telemetry now) = finish_close b drained telemetry now
call b (truncates reason now) = mark_truncated b reason now
call b (steps model) = (increment_step_count b model).0
call b (truncates_model model reason now) = mark_model_truncated b model reason now
call b (sends_stop model) = mark_model_stop_response_sent b model

-- No method takes the status back: an active session may close, a closing one may be closed, and
-- a closed one stays closed.
pub status-monotone : (b : Binding) (m : Method) → rank b.status ≤ rank (call b m).status
unfolding call close begin_close finish_close mark_truncated increment_step_count
    mark_model_truncated mark_model_stop_response_sent
status-monotone b (closes reason now) = ground arith
status-monotone b (begins_close reason mode now) = ground arith
status-monotone b _ = ground arith
