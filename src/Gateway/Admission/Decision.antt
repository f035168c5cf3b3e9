-- ===== src/Gateway/Admission/Decision.antt =====
-- When a request is admitted, and what an admission does to its binding.
use safactory.Base.{
  ◌∙◌, string_eq, Bool, Option, arith, false, none, refl, some, true, ℕ, ◌<◌, ◌↔◌, ◌≡◌, String, ap,
  contains, lookup-insert, ◌+◌, add, contains-add, contains-discard, insert, lookup, or_zero, ◌-◌,
  ◌≢◌,
}
use safactory.Gateway.Admission.Tracking.{settle_session_lem}
use safactory.Gateway.Binding.{Binding, Context, active, step_count_for, increment_step_count}
use safactory.Gateway.Admission.{
  map_option, settle_binding, acquire_request, Config, Controller, Outcome, admit, forward,
  is_active, reject, session_inflight, steps_used_up, release, settle, rejected, session_is,
  map_option, settle_binding,
}

abbrev pub StepsLeft : Option ℕ → ℕ → Type 0
StepsLeft none count = Unit {0}
StepsLeft (some limit) count = count < limit

-- What the gateway promises to forward.
pub record Admits (cfg : Config) (ctl : Controller) (c : Context) (b : Binding) : Type 0 where
  pub open_session : b.status ≡ active
  pub serving : ctl.draining ≡ false
  pub steps_left : StepsLeft cfg.max_steps (step_count_for b c.requested_model)
  pub room : ctl.inflight_requests < cfg.max_inflight_requests
  pub stream_room : (c.is_stream ≡ true) → ctl.active_streams < cfg.max_active_streams
  pub session_room : session_inflight ctl c.session_id < cfg.per_session_max_inflight

steps_left_lem : (limit : Option ℕ) (n : ℕ) → (steps_used_up limit n ≡ false) ↔ StepsLeft limit n
unfolding steps_used_up
steps_left_lem none n = (λ _. tt, λ _. refl)
steps_left_lem (some limit) n = ground arith

abbrev pub forwarded : Outcome → Bool
forwarded (forward k) = true
forwarded _ = false

module _ (cfg : Config) (ctl : Controller) (c : Context) (b : Binding) (now : ℕ) where
  pub forwarded-Admits : forwarded (acquire_request cfg ctl c b now).2 ≡ true → Admits cfg ctl c b
  unfolding acquire_request reject admit is_active
  forwarded-Admits h =
      ground (arith, steps_left_lem cfg.max_steps (step_count_for b c.requested_model))

  pub Admits-forwarded : Admits cfg ctl c b → acquire_request cfg ctl c b now ≡ admit ctl c b
  unfolding acquire_request reject admit is_active
  Admits-forwarded h =
      ground (arith, steps_left_lem cfg.max_steps (step_count_for b c.requested_model))

-- A request is forwarded exactly when the session is active, the gateway is not draining, the
-- model has steps left, and no limit on requests, streams or the session's requests is reached;
-- the forwarded step is numbered by the model's count after it.
pub forward-iff-Admits :
    (cfg : Config) (ctl : Controller) (c : Context) (b : Binding) (now : ℕ)
    → ((acquire_request cfg ctl c b now).2 ≡ forward (step_count_for b c.requested_model + 1))
      ↔ Admits cfg ctl c b
forward-iff-Admits cfg ctl c b now = (
  λ h. forwarded-Admits cfg ctl c b now (ap forwarded h),
  λ h.
      rw (Admits-forwarded cfg ctl c b now h)
        (unfold admit increment_step_count step_count_for in refl),
)

-- The counts of requests and streams are taken back, whatever else the binding holds.
with_counts :
    (b : Binding) (streams requests n m : ℕ)
    → n ≡ streams
    → m ≡ requests
    → record b { active_stream_count = n; active_request_count = m }
      ≡ record b { active_stream_count = streams; active_request_count = requests }
with_counts b streams requests n m e f =
    ap (λ x. record b { active_stream_count = x; active_request_count = m }) e
    ∙ ap (λ x. record b { active_stream_count = streams; active_request_count = x }) f

settled-admitted :
    (ctl : Controller) (c : Context) (b : Binding)
    → settle_binding c (admit ctl c b).1 ≡ (increment_step_count b c.requested_model).0
unfolding settle_binding admit increment_step_count step_count_for
settled-admitted ctl c b =
    with_counts (increment_step_count b c.requested_model).0 b.active_stream_count
      b.active_request_count _ _ (omega arith) (omega arith)

release-admit :
    (ctl : Controller) (c : Context) (b : Binding)
    → contains c.request_id ctl.request_acquired ≡ false
    → let r = release (admit ctl c b).0 (some c) (some (admit ctl c b).1) in
      (r.0.inflight_requests ≡ ctl.inflight_requests)
      × (r.0.active_streams ≡ ctl.active_streams)
      × ((s : String) → session_inflight r.0 s ≡ session_inflight ctl s)
      × ((i : String) → contains i r.0.request_acquired ≡ contains i ctl.request_acquired)
      × (r.0.accepted_total ≡ ctl.accepted_total + 1)
      × (r.0.rejected_total ≡ ctl.rejected_total)
      × (r.1 ≡ some (increment_step_count b c.requested_model).0)
unfolding release admit settle session_inflight map_option settle_binding increment_step_count
release-admit ctl c b new =
    let held = contains-add c.request_id c.request_id ctl.request_acquired in
    let same = string_eq.beq_iff c.request_id c.request_id in
    let held_now : contains c.request_id (admit ctl c b).0.request_acquired ≡ true =
      ground (arith, held, same) in
    let count = or_zero (lookup c.session_id ctl.per_session_inflight) + 1 in
    (
      ground (arith, held, same),
      ground (arith, held, same),
      λ s. ground (
        arith,
        held,
        same,
        string_eq.beq_iff c.session_id s,
        string_eq.beq_iff c.session_id c.session_id,
        lookup-insert c.session_id s count ctl.per_session_inflight,
        lookup-insert c.session_id c.session_id count ctl.per_session_inflight,
        settle_session_lem (insert c.session_id count ctl.per_session_inflight) c.session_id s
            (count - 1),
      ),
      λ i. ground (
        arith,
        held,
        same,
        new,
        string_eq.beq_iff c.request_id i,
        contains-add c.request_id i ctl.request_acquired,
        contains-discard c.request_id i (add c.request_id ctl.request_acquired),
      ),
      ground (arith, held, same),
      ground (arith, held, same),
      rw (held_now) (ap some (settled-admitted ctl c b)),
    )

-- A release right after an admission under a new id takes back what the admission counted: the
-- controller's requests, streams, requests of each session and ids in flight, and the binding's
-- requests and streams. What stays is one more request accepted and one more step of the model.
pub release-acquire :
    (cfg : Config) (ctl : Controller) (c : Context) (b : Binding) (now : ℕ)
    → contains c.request_id ctl.request_acquired ≡ false
    → Admits cfg ctl c b
    → let q = acquire_request cfg ctl c b now in
      let r = release q.0 (some c) (some q.1) in
      (r.0.inflight_requests ≡ ctl.inflight_requests)
      × (r.0.active_streams ≡ ctl.active_streams)
      × ((s : String) → session_inflight r.0 s ≡ session_inflight ctl s)
      × ((i : String) → contains i r.0.request_acquired ≡ contains i ctl.request_acquired)
      × (r.0.accepted_total ≡ ctl.accepted_total + 1)
      × (r.0.rejected_total ≡ ctl.rejected_total)
      × (r.1 ≡ some (increment_step_count b c.requested_model).0)
unfolding release
release-acquire cfg ctl c b now new h =
    rw (Admits-forwarded cfg ctl c b now h) (release-admit ctl c b new)

-- A session that is closing or closed is rejected before any other test, and its binding is left.
pub not_active-rejected :
    (cfg : Config) (ctl : Controller) (c : Context) (b : Binding) (now : ℕ)
    → b.status ≢ active
    → ((acquire_request cfg ctl c b now).2 ≡ rejected (session_is b.status))
      × ((acquire_request cfg ctl c b now).1 ≡ b)
unfolding acquire_request reject is_active
not_active-rejected cfg ctl c b now h = ground arith
