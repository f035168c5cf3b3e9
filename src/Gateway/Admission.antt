-- ===== src/Gateway/Admission.antt =====
-- gateway/admission_control.py: which requests of a session go on to a model. A rejection is a
-- value, and a binding that a call mutates is an argument and part of the result.
pub mod Tracking
pub mod Decision
pub mod Bounds
pub mod Examples
use safactory.Base.{
  string_eq, Bool, Dict, List, Option, String, [], add, contains, discard, erase, false,
  if◌then◌else◌, insert, leb, lookup, none, not, some, suc, true, zero, ℕ, ◌&&◌, ◌+◌, ◌-◌, or_zero,
}
use safactory.Gateway.Binding.{
  Binding, Context, Status, active, increment_step_count, mark_model_truncated, step_count_for,
}

-- The limits of `GatewayConfig`; `max_steps` is `none` where the source has -1, its only negative.
pub record Config : Type 0 where
  pub max_steps : Option ℕ
  pub max_inflight_requests : ℕ
  pub max_active_streams : ℕ
  pub per_session_max_inflight : ℕ

-- `AdmissionController`
pub record Controller : Type 0 where
  pub draining : Bool
  pub inflight_requests : ℕ
  pub active_streams : ℕ
  pub per_session_inflight : Dict String ℕ
  pub request_acquired : List String
  pub accepted_total : ℕ
  pub rejected_total : ℕ

abbrev pub init : Controller
init = record {
  draining = false;
  inflight_requests = 0;
  active_streams = 0;
  per_session_inflight = [];
  request_acquired = [];
  accepted_total = 0;
  rejected_total = 0;
}

-- The reasons of `AdmissionRejected`.
pub data Rejection : Type 0 where
  session_is : Status → Rejection
  gateway_draining inflight_limit stream_limit session_limit : Rejection

pub status_code : Rejection → ℕ
status_code (session_is s) = 409
status_code session_limit = 429
status_code _ = 503

-- `AdmissionDecision`, or the exception.
pub data Outcome : Type 0 where
  forward : ℕ → Outcome
  stop : String → Outcome
  rejected : Rejection → Outcome

abbrev pub max_steps_reached : String
max_steps_reached = "max_steps_reached"

-- `max_steps >= 0 and step_count >= max_steps`
pub steps_used_up : Option ℕ → ℕ → Bool
steps_used_up none count = false
steps_used_up (some limit) count = leb limit count

pub is_active : Status → Bool
is_active active = true
is_active _ = false

pub session_inflight : Controller → String → ℕ
session_inflight ctl s = or_zero (lookup s ctl.per_session_inflight)

pub reject : Controller → Binding → Rejection → Controller × Binding × Outcome
reject ctl b why = (record ctl { rejected_total = ctl.rejected_total + 1 }, b, rejected why)

-- The part of `acquire_request` after the guards.
pub admit : Controller → Context → Binding → Controller × Binding × Outcome
admit ctl ctx b =
    let streams = if ctx.is_stream then 1 else 0 in
    let (b', index) =
      increment_step_count
        (record b {
          active_stream_count = b.active_stream_count + streams;
          active_request_count = b.active_request_count + 1;
        })
        ctx.requested_model in
    (
      record ctl {
        inflight_requests = ctl.inflight_requests + 1;
        active_streams = ctl.active_streams + streams;
        per_session_inflight =
            insert ctx.session_id (session_inflight ctl ctx.session_id + 1)
              ctl.per_session_inflight;
        request_acquired = add ctx.request_id ctl.request_acquired;
        accepted_total = ctl.accepted_total + 1;
      },
      b',
      forward index,
    )

pub acquire_request : Config → Controller → Context → Binding → ℕ → Controller × Binding × Outcome
acquire_request cfg ctl ctx b now =
    if not (is_active b.status)
    then reject ctl b (session_is b.status)
    else if ctl.draining
    then reject ctl b gateway_draining
    else if steps_used_up cfg.max_steps (step_count_for b ctx.requested_model)
    then (
      record ctl { accepted_total = ctl.accepted_total + 1 },
      mark_model_truncated b ctx.requested_model max_steps_reached now,
      stop max_steps_reached,
    )
    else if leb cfg.max_inflight_requests ctl.inflight_requests
    then reject ctl b inflight_limit
    else if ctx.is_stream && leb cfg.max_active_streams ctl.active_streams
    then reject ctl b stream_limit
    else if leb cfg.per_session_max_inflight (session_inflight ctl ctx.session_id)
    then reject ctl b session_limit
    else admit ctl ctx b

-- `max(0, n - 1)` is `n - 1` here.
pub settle_session : Dict String ℕ → String → ℕ → Dict String ℕ
settle_session d s zero = erase s d
settle_session d s (suc n) = insert s (suc n) d

pub settle_binding : Context → Binding → Binding
settle_binding ctx b = record b {
  active_stream_count = b.active_stream_count - (if ctx.is_stream then 1 else 0);
  active_request_count = b.active_request_count - 1;
}

pub settle : Controller → Context → Controller
settle ctl ctx = record ctl {
  request_acquired = discard ctx.request_id ctl.request_acquired;
  inflight_requests = ctl.inflight_requests - 1;
  active_streams = ctl.active_streams - (if ctx.is_stream then 1 else 0);
  per_session_inflight =
      settle_session ctl.per_session_inflight ctx.session_id
        (session_inflight ctl ctx.session_id - 1);
}

pub map_option {ℓ} : {A : Type ℓ} → (A → A) → Option A → Option A
map_option f none = none
map_option f (some a) = some (f a)

pub release : Controller → Option Context → Option Binding → Controller × Option Binding
release ctl none b = (ctl, b)
release ctl (some ctx) b =
    if contains ctx.request_id ctl.request_acquired
    then (settle ctl ctx, map_option (settle_binding ctx) b)
    else (ctl, b)
