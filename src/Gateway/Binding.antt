-- ===== src/Gateway/Binding.antt =====
-- gateway/models.py: the binding of one gateway session. A time is the number of a clock reading.
pub mod Lifecycle
pub mod Examples
use safactory.Base.{
  string_eq, Bool, Dict, List, Option, String, add, false, insert, lookup, none, some, true, ℕ, ◌+◌,
  is_some, or_zero,
}

pub data Status : Type 0 where
  active closing closed : Status

pub data TelemetryStatus : Type 0 where
  pending : TelemetryStatus
  settled : String → TelemetryStatus

-- `GatewaySessionBinding`
pub record Binding : Type 0 where
  pub session_id : String
  pub model : String
  pub upstream_base_url : Option String
  pub status : Status
  pub last_seen_at : ℕ
  pub job_id : Option String
  pub env_name : Option String
  pub group_id : Option String
  pub request_count : ℕ
  pub error_count : ℕ
  pub active_request_count : ℕ
  pub active_stream_count : ℕ
  pub first_seen_at : Option ℕ
  pub closed_at : Option ℕ
  pub close_reason : Option String
  pub close_completion_mode : Option String
  pub close_drained : Option Bool
  pub close_telemetry_status : Option TelemetryStatus
  pub llm_step_count : ℕ
  pub truncated : Bool
  pub truncate_reason : Option String
  pub stop_response_sent : Bool
  pub llm_step_count_by_model : Dict String ℕ
  pub truncated_models : Dict String String
  pub stop_response_sent_models : List String

pub close : Binding → String → ℕ → Binding
close b reason closed_at = record b {
  status = closed;
  closed_at = some closed_at;
  close_reason = some reason;
  last_seen_at = closed_at;
}

pub start_closing : Binding → String → String → ℕ → Binding
start_closing b reason completion_mode started_at = record b {
  status = closing;
  close_reason = some reason;
  close_completion_mode = some completion_mode;
  close_telemetry_status = some pending;
  last_seen_at = started_at;
}

-- `true` is the first caller's answer: it runs the close.
pub begin_close : Binding → String → String → ℕ → Binding × Bool
unfolding start_closing
begin_close b reason completion_mode started_at = elim b.status [
  | active ↦ (start_closing b reason completion_mode started_at, true)
  | _ ↦ (b, false)
]

pub finish_close : Binding → Bool → TelemetryStatus → ℕ → Binding
finish_close b drained telemetry_status closed_at = record b {
  status = closed;
  closed_at = some closed_at;
  close_drained = some drained;
  close_telemetry_status = some telemetry_status;
  last_seen_at = closed_at;
}

pub mark_truncated : Binding → String → ℕ → Binding
unfolding close
mark_truncated b reason closed_at =
    close (record b { truncated = true; truncate_reason = some reason }) reason closed_at

unfoldable pub step_count_for : Binding → String → ℕ
step_count_for b model = or_zero (lookup model b.llm_step_count_by_model)

unfoldable pub increment_step_count : Binding → String → Binding × ℕ
increment_step_count b model =
    let next_count = step_count_for b model + 1 in
    (
      record b {
        llm_step_count_by_model = insert model next_count b.llm_step_count_by_model;
        llm_step_count = b.llm_step_count + 1;
      },
      next_count,
    )

pub mark_model_truncated : Binding → String → String → ℕ → Binding
mark_model_truncated b model reason truncated_at = record b {
  truncated = true;
  truncate_reason = some reason;
  truncated_models = insert model reason b.truncated_models;
  last_seen_at = truncated_at;
}

pub is_model_truncated : Binding → String → Bool
is_model_truncated b model = is_some (lookup model b.truncated_models)

pub model_truncate_reason : Binding → String → Option String
model_truncate_reason b model = lookup model b.truncated_models

pub mark_model_stop_response_sent : Binding → String → Binding
mark_model_stop_response_sent b model = record b {
  stop_response_sent = true;
  stop_response_sent_models = add model b.stop_response_sent_models;
}

-- `GatewayRequestContext`; the path's job is never looked up in storage.
pub record Context : Type 0 where
  pub request_id : String
  pub session_id : String
  pub requested_model : String
  pub endpoint : String
  pub is_stream : Bool
  pub created_at : ℕ
  pub llm_step_index : Option ℕ
  pub synthetic_stop : Bool
  pub job_id : Option String
