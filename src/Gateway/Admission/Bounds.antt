-- ===== src/Gateway/Admission/Bounds.antt =====
-- The limits of the configuration hold in every reachable state.
use safactory.Base.{
  string_eq, Bool-cases, Option, String, [], arith, contains, count_if, false, if_elim, inl, inr,
  lookup, lookup-insert, some, ℕ, ◌+◌, ◌-◌, ◌≡◌, ◌≤◌,
}
use safactory.Gateway.Binding.{Binding, Context}
use safactory.Gateway.Admission.{
  acquire_request, Config, Controller, admit, init, map_option, reject, release, session_inflight,
  settle, settle_binding,
}
use safactory.Gateway.Admission.Tracking.{
  Gate, IsWithin, Reach, Reach-Tracks, Step, acquire_cases, acquires, everything, here, next,
  of_session, releases, releases_again, settle_session_lem, streaming,
}
use safactory.Gateway.Admission.Decision.{Admits, Admits-forwarded, forwarded, forwarded-Admits}

admit-IsWithin :
    (cfg : Config) (ctl : Controller) (c : Context) (b : Binding)
    → Admits cfg ctl c b
    → IsWithin cfg ctl
    → IsWithin cfg (admit ctl c b).0
unfolding admit session_inflight
admit-IsWithin cfg ctl c b a w = record {
  inflight = omega (arith, a.room);
  streams = ground (arith, w.streams, a.stream_room);
  sessions = λ s. ground (
    arith,
    w.sessions s,
    a.session_room,
    string_eq.beq_iff c.session_id s,
    lookup-insert c.session_id s (session_inflight ctl c.session_id + 1) ctl.per_session_inflight,
  );
}

same_counts-IsWithin :
    (cfg : Config) (ctl : Controller) (accepted refused : ℕ)
    → IsWithin cfg ctl
    → IsWithin cfg (record ctl { accepted_total = accepted; rejected_total = refused })
unfolding session_inflight
same_counts-IsWithin cfg ctl accepted refused w = record {
  inflight = w.inflight;
  streams = w.streams;
  sessions = w.sessions;
}

not_forwarded-IsWithin :
    (cfg : Config) (ctl : Controller) (c : Context) (b : Binding) (now : ℕ)
    → IsWithin cfg ctl
    → forwarded (acquire_request cfg ctl c b now).2 ≡ false
    → IsWithin cfg (acquire_request cfg ctl c b now).0
unfolding reject admit
not_forwarded-IsWithin cfg ctl c b now w =
    acquire_cases (λ q. forwarded q.2 ≡ false → IsWithin cfg q.0) cfg ctl c b now
      (λ why h. same_counts-IsWithin cfg ctl ctl.accepted_total (ctl.rejected_total + 1) w)
      (λ h. same_counts-IsWithin cfg ctl (ctl.accepted_total + 1) ctl.rejected_total w) (λ h. cc)

acquire-IsWithin :
    (cfg : Config) (ctl : Controller) (c : Context) (b : Binding) (now : ℕ)
    → IsWithin cfg ctl
    → IsWithin cfg (acquire_request cfg ctl c b now).0
acquire-IsWithin cfg ctl c b now w =
    elim (Bool-cases (forwarded (acquire_request cfg ctl c b now).2)) [
      | inl admitted ↦
          let a = forwarded-Admits cfg ctl c b now admitted in
          rw (Admits-forwarded cfg ctl c b now a) (admit-IsWithin cfg ctl c b a w)
      | inr refused ↦ not_forwarded-IsWithin cfg ctl c b now w refused
    ]

settle-IsWithin :
    (cfg : Config) (ctl : Controller) (c : Context) → IsWithin cfg ctl → IsWithin cfg (settle ctl c)
unfolding settle session_inflight
settle-IsWithin cfg ctl c w = record {
  inflight = omega (arith, w.inflight);
  streams = ground (arith, w.streams);
  sessions = λ s. ground (
    arith,
    w.sessions s,
    w.sessions c.session_id,
    string_eq.beq_iff c.session_id s,
    settle_session_lem ctl.per_session_inflight c.session_id s
        (session_inflight ctl c.session_id - 1),
  );
}

release-IsWithin :
    (cfg : Config) (ctl : Controller) (c : Context) (b : Option Binding)
    → IsWithin cfg ctl
    → IsWithin cfg (release ctl (some c) b).0
unfolding release
release-IsWithin cfg ctl c b w =
    if_elim (λ (q : Controller × Option Binding). IsWithin cfg q.0)
      (contains c.request_id ctl.request_acquired) (settle ctl c, map_option (settle_binding c) b)
      (ctl, b) (settle-IsWithin cfg ctl c w) w

Step-IsWithin : (cfg : Config) {g h : Gate} → Step cfg g h → IsWithin cfg g.ctl → IsWithin cfg h.ctl
Step-IsWithin cfg (acquires g c b now new) w = acquire-IsWithin cfg g.ctl c b now w
Step-IsWithin cfg (releases g c held b found same_session same_kind) w =
    release-IsWithin cfg g.ctl c b w
Step-IsWithin cfg (releases_again g c b gone) w = release-IsWithin cfg g.ctl c b w

init-IsWithin : (cfg : Config) → IsWithin cfg init
unfolding session_inflight lookup
init-IsWithin cfg = record {
  inflight = omega arith;
  streams = omega arith;
  sessions = λ s. omega arith;
}

Reach-IsWithin :
    (cfg : Config) {g : Gate} → Reach cfg (record { ctl = init; out = [] }) g → IsWithin cfg g.ctl
Reach-IsWithin cfg here = init-IsWithin cfg
Reach-IsWithin cfg (next r s) = Step-IsWithin cfg s (Reach-IsWithin cfg r)

-- From the start, whatever is admitted and released in whatever order, the requests really in
-- flight, the streams among them and those of any one session stay within the configured limits.
pub in_flight_bounded :
    (cfg : Config) {g : Gate}
    → Reach cfg (record { ctl = init; out = [] }) g
    → (count_if everything g.out ≤ cfg.max_inflight_requests)
      × (count_if streaming g.out ≤ cfg.max_active_streams)
      × ((s : String) → count_if (of_session s) g.out ≤ cfg.per_session_max_inflight)
in_flight_bounded cfg {g} r =
    let t = Reach-Tracks cfg r in
    let w = Reach-IsWithin cfg r in
    (
      rw (← t.inflight) w.inflight,
      rw (← t.streams) w.streams,
      λ s. rw (← t.sessions s) (w.sessions s),
    )
