-- ===== src/Gateway/Sessions.antt =====
-- gateway/session_resolver.py: the bindings of the gateway's sessions. The two clocks are arguments,
-- `mono` in seconds of the monotonic clock and `now` in seconds of the wall clock; an exception is
-- a value. A call of a binding's method writes the binding back under its session.
pub mod Views
pub mod Bindings
pub mod Closing
pub mod Examples
use safactory.Base.{
  string_eq, Bool, Dict, List, Option, String, [], add, count_if, erase, false, if◌then◌else◌,
  insert, is_some, keep_if, leb, lookup, ltb, none, not, some, ℕ, ◌&&◌, ◌+◌, ◌==◌, ◌∷◌,
}
use safactory.Gateway.Binding.{Binding, Context, TelemetryStatus, active, begin_close, finish_close}

pub record Resolver : Type 0 where
  pub session_cache_ttl_s : ℕ
  pub bindings : Dict String Binding
  pub last_eviction_at : ℕ

pub data SessionError : Type 0 where
  no_session_id empty_job_id no_model different_job_id : SessionError

pub data Result {ℓ} (A : Type ℓ) : Type ℓ where
  ok : A → Result A
  err : SessionError → Result A

-- The fields of a request's body that `resolve` reads; `model` is `none` where it is no string.
pub record Payload : Type 0 where
  pub model : Option String
  pub stream : Bool

-- `s.strip()`, of the Python library, and `uuid4`, are arguments.
blank_job : (String → String) → Option String → Bool
blank_job strip none = false
blank_job strip (some j) = strip j == ""

context_of : Payload → String → String → Option String → String → ℕ → String → Context
context_of payload endpoint session job request_id now model = record {
  request_id = request_id;
  session_id = session;
  requested_model = model;
  endpoint = endpoint;
  is_stream = payload.stream;
  created_at = now;
  llm_step_index = none;
  synthetic_stop = false;
  job_id = job;
}

resolve_model : Option String → (String → Context) → Result Context
resolve_model none f = err no_model
resolve_model (some m) f = if m == "" then err no_model else ok (f m)

pub resolve :
    (String → String) → String → Payload → String → String → Option String → ℕ → Result Context
unfolding context_of
resolve strip request_id payload endpoint session job now =
    if session == ""
    then err no_session_id
    else if blank_job strip job
    then err empty_job_id
    else resolve_model payload.model (context_of payload endpoint session job request_id now)

-- `GatewaySessionBinding(...)` with its defaults.
pub new_binding : String → String → Option String → ℕ → Binding
new_binding session model job now = record {
  session_id = session;
  model = model;
  upstream_base_url = none;
  status = active;
  last_seen_at = now;
  job_id = job;
  env_name = none;
  group_id = none;
  request_count = 0;
  error_count = 0;
  active_request_count = 0;
  active_stream_count = 0;
  first_seen_at = some now;
  closed_at = none;
  close_reason = none;
  close_completion_mode = none;
  close_drained = none;
  close_telemetry_status = none;
  llm_step_count = 0;
  truncated = false;
  truncate_reason = none;
  stop_response_sent = false;
  llm_step_count_by_model = [];
  truncated_models = [];
  stop_response_sent_models = [];
}

-- `active_request_count <= 0 and active_stream_count <= 0 and last_seen_at < now - ttl`; the
-- difference may be negative in the source, so the ttl stands on the other side.
pub is_expired : ℕ → ℕ → String × Binding → Bool
is_expired ttl now (s, b) =
    leb b.active_request_count 0 && leb b.active_stream_count 0 && ltb (b.last_seen_at + ttl) now

-- Once in sixty seconds at most.
pub evict_expired : Resolver → ℕ → ℕ → Resolver
evict_expired r mono now = if ltb mono (r.last_eviction_at + 60) then r else record r {
  last_eviction_at = mono;
  bindings = keep_if (λ p. not (is_expired r.session_cache_ttl_s now p)) r.bindings;
}

put : Resolver → String → Binding → Resolver
put r s b = record r { bindings = insert s b r.bindings }

-- `if binding.job_id is not None and binding.job_id != ctx.job_id`
job_conflict : Option String → Option String → Bool
job_conflict none j = false
job_conflict (some held) none = false
job_conflict (some held) (some asked) = not (held == asked)

-- `ctx.job_id` where it is given.
pub joined_job : Option String → Option String → Option String
joined_job held none = held
joined_job held (some asked) = some asked

pub touch : Binding → Context → ℕ → Binding
touch b ctx now = record b {
  job_id = joined_job b.job_id ctx.job_id;
  model = (if ctx.requested_model == "" then b.model else ctx.requested_model);
  last_seen_at = now;
}

bind : Resolver → Context → ℕ → Option Binding → Resolver × Result Binding
bind r ctx now none =
    let b = new_binding ctx.session_id ctx.requested_model ctx.job_id now in
    (put r ctx.session_id b, ok b)
bind r ctx now (some b) =
    if job_conflict b.job_id ctx.job_id
    then (r, err different_job_id)
    else (put r ctx.session_id (touch b ctx now), ok (touch b ctx now))

pub get_or_create_binding : Resolver → Context → ℕ → ℕ → Resolver × Result Binding
unfolding bind put
get_or_create_binding r ctx mono now =
    let r' = evict_expired r mono now in bind r' ctx now (lookup ctx.session_id r'.bindings)

or_new : String → ℕ → Option Binding → Binding
or_new session now none = new_binding session "" none now
or_new session now (some b) = b

pub begin_close_session : Resolver → String → String → String → ℕ → Resolver × Binding × Bool
unfolding put or_new
begin_close_session r session reason mode now =
    let (b, started) =
      begin_close (or_new session now (lookup session r.bindings)) reason mode now in
    (put r session b, b, started)

finish : Resolver → String → Bool → TelemetryStatus → ℕ → Option Binding → Resolver × Option Binding
finish r session drained telemetry now none = (r, none)
finish r session drained telemetry now (some b) =
    let b' = finish_close b drained telemetry now in (put r session b', some b')

pub finish_close_session :
    Resolver → String → Bool → TelemetryStatus → ℕ → Resolver × Option Binding
unfolding finish put
finish_close_session r session drained telemetry now =
    finish r session drained telemetry now (lookup session r.bindings)

-- `set(session_ids)`
distinct : List String → List String
distinct [] = []
distinct (s ∷ ss) = add s (distinct ss)

pub erase_all : List String → Dict String Binding → Dict String Binding
erase_all [] d = d
erase_all (s ∷ ss) d = erase_all ss (erase s d)

pub clear_session_cache : Resolver → List String → Resolver × ℕ
unfolding distinct
clear_session_cache r sessions =
    let targets = distinct sessions in
    (
      record r { bindings = erase_all targets r.bindings },
      count_if (λ s. is_some (lookup s r.bindings)) targets,
    )
