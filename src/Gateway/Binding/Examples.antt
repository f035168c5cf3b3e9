-- ===== src/Gateway/Binding/Examples.antt =====
-- Tests of the binding, and its theorems at concrete inputs.
use safactory.Base.{refl, [], false, none, some, ◌≡◌}
use safactory.Gateway.Binding.{Binding, active, increment_step_count}

-- A fresh binding, as the resolver makes it for its first request.

abbrev pub fresh : Binding
fresh = record {
  session_id = "s1";
  model = "m1";
  upstream_base_url = none;
  status = active;
  last_seen_at = 100;
  job_id = none;
  env_name = none;
  group_id = none;
  request_count = 0;
  error_count = 0;
  active_request_count = 0;
  active_stream_count = 0;
  first_seen_at = some 100;
  closed_at = none;
  close_reason = none;
  close_completion_mode = none;
  close_drained = none;
  close_telemetry_status = none;
  llm_step_count = 0;
  truncated = false;
  truncate_reason = none;
  stop_response_sent = false;
  llm_step_count_by_model = [];
  truncated_models = [];
  stop_response_sent_models = [];
}

two_models : Binding
two_models = (increment_step_count (increment_step_count fresh "m1").0 "m2").0

two_models_count : two_models.llm_step_count ≡ 2
unfolding two_models increment_step_count
two_models_count = refl
