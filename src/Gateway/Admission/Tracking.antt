-- ===== src/Gateway/Admission/Tracking.antt =====
-- The counters of the controller against the requests that are really in flight.
use safactory.Base.{
  string_eq, Bool, Dict, IsUnique, Option, String, arith, contains, contains-add, contains-discard,
  count_if, count_if-erase, count_if-insert_new, erase, erase-IsUnique, if◌then◌else◌, insert,
  insert-IsUnique, is_some, lookup, lookup-erase, lookup-insert, none, or_zero, some, suc, true,
  zero, ℕ, ◌+◌, ◌-◌, ◌==◌, ◌≡◌, [], false, if_elim, refl, leb, not, ◌&&◌, ◌≤◌,
}
use safactory.Gateway.Binding.{Binding, Context, mark_model_truncated, step_count_for}
use safactory.Gateway.Admission.{
  Config, Controller, Outcome, acquire_request, admit, forward, release, session_inflight, settle,
  settle_session, Rejection, init, max_steps_reached, reject, stop, gateway_draining,
  inflight_limit, is_active, session_is, session_limit, steps_used_up, stream_limit,
}

-- The controller, and the admitted requests that have not been released yet.
pub record Gate : Type 0 where
  pub ctl : Controller
  pub out : Dict String Context

abbrev pub of_session : String → String × Context → Bool
of_session s (id, c) = c.session_id == s

abbrev pub streaming : String × Context → Bool
streaming (id, c) = c.is_stream

abbrev pub everything : String × Context → Bool
everything p = true

-- Every counter is the number of the requests in flight that it stands for.
pub record Tracks (g : Gate) : Type 0 where
  pub unique : IsUnique g.out
  pub acquired : (r : String) → contains r g.ctl.request_acquired ≡ is_some (lookup r g.out)
  pub inflight : g.ctl.inflight_requests ≡ count_if everything g.out
  pub streams : g.ctl.active_streams ≡ count_if streaming g.out
  pub sessions : (s : String) → session_inflight g.ctl s ≡ count_if (of_session s) g.out

abbrev pub entered : Dict String Context → Context → Outcome → Dict String Context
entered out c (forward k) = insert c.request_id c out
entered out c _ = out

-- What may happen at the gate: a request with a new id asks for admission, an admitted one is
-- released, or a request that is not in flight is released once more.
pub data Step (cfg : Config) : Gate → Gate → Type 0 where
  acquires :
      (g : Gate) (c : Context) (b : Binding) (now : ℕ)
      → lookup c.request_id g.out ≡ none
      → Step cfg g (record {
        ctl = (acquire_request cfg g.ctl c b now).0;
        out = entered g.out c (acquire_request cfg g.ctl c b now).2;
      })
  releases :
      (g : Gate) (c held : Context) (b : Option Binding)
      → lookup c.request_id g.out ≡ some held
      → held.session_id ≡ c.session_id
      → held.is_stream ≡ c.is_stream
      → Step cfg g (record { ctl = (release g.ctl (some c) b).0; out = erase c.request_id g.out })
  releases_again :
      (g : Gate) (c : Context) (b : Option Binding)
      → lookup c.request_id g.out ≡ none
      → Step cfg g (record { ctl = (release g.ctl (some c) b).0; out = g.out })

pub data Reach (cfg : Config) (g : Gate) : Gate → Type 0 where
  here : Reach cfg g g
  next : {h k : Gate} → Reach cfg g h → Step cfg h k → Reach cfg g k

admit-Tracks :
    (g : Gate) (c : Context) (b : Binding)
    → lookup c.request_id g.out ≡ none
    → Tracks g
    → Tracks (record { ctl = (admit g.ctl c b).0; out = insert c.request_id c g.out })
unfolding admit session_inflight
admit-Tracks g c b new t = record {
  unique = insert-IsUnique c.request_id c g.out t.unique;
  acquired = λ r. ground (
    arith,
    t.acquired r,
    contains-add c.request_id r g.ctl.request_acquired,
    lookup-insert c.request_id r c g.out,
  );
  inflight = ground (arith, t.inflight, count_if-insert_new everything c.request_id c g.out);
  streams = ground (arith, t.streams, count_if-insert_new streaming c.request_id c g.out);
  sessions = λ s. ground (
    arith,
    string_eq.beq_iff c.session_id s,
    t.sessions s,
    count_if-insert_new (of_session s) c.request_id c g.out,
    lookup-insert c.session_id s (session_inflight g.ctl c.session_id + 1)
        g.ctl.per_session_inflight,
  );
}

-- A call of `acquire_request` is refused, answered by a stop, or admitted.
pub acquire_cases {ℓ} :
    (P : Controller × Binding × Outcome → Type ℓ) (cfg : Config) (ctl : Controller) (c : Context)
    (b : Binding) (now : ℕ)
    → ((why : Rejection) → P (reject ctl b why))
    → P (
      record ctl { accepted_total = ctl.accepted_total + 1 },
      mark_model_truncated b c.requested_model max_steps_reached now,
      stop max_steps_reached,
    )
    → P (admit ctl c b)
    → P (acquire_request cfg ctl c b now)
unfolding acquire_request
acquire_cases P cfg ctl c b now refused stopped admitted =
    if_elim P (not (is_active b.status)) _ _ (refused (session_is b.status)) (
      if_elim P ctl.draining _ _ (refused gateway_draining) (
        if_elim P (steps_used_up cfg.max_steps (step_count_for b c.requested_model)) _ _ stopped (
          if_elim P (leb cfg.max_inflight_requests ctl.inflight_requests) _ _
            (refused inflight_limit)
            (if_elim P (c.is_stream && leb cfg.max_active_streams ctl.active_streams) _ _
              (refused stream_limit)
              (if_elim P (leb cfg.per_session_max_inflight (session_inflight ctl c.session_id)) _ _
                (refused session_limit) admitted)))))

same_counts-Tracks :
    (g : Gate) (accepted refused : ℕ)
    → Tracks g
    → Tracks
        (record g { ctl = record g.ctl { accepted_total = accepted; rejected_total = refused } })
unfolding session_inflight
same_counts-Tracks g accepted refused t = record {
  unique = t.unique;
  acquired = t.acquired;
  inflight = t.inflight;
  streams = t.streams;
  sessions = t.sessions;
}

acquire-Tracks :
    (cfg : Config) (g : Gate) (c : Context) (b : Binding) (now : ℕ)
    → lookup c.request_id g.out ≡ none
    → Tracks g
    → Tracks (record {
      ctl = (acquire_request cfg g.ctl c b now).0;
      out = entered g.out c (acquire_request cfg g.ctl c b now).2;
    })
unfolding reject admit
acquire-Tracks cfg g c b now new t =
    acquire_cases (λ q. Tracks (record { ctl = q.0; out = entered g.out c q.2 })) cfg g.ctl c b now
      (λ why. same_counts-Tracks g g.ctl.accepted_total (g.ctl.rejected_total + 1) t)
      (same_counts-Tracks g (g.ctl.accepted_total + 1) g.ctl.rejected_total t)
      (admit-Tracks g c b new t)

pub settle_session_lem :
    (d : Dict String ℕ) (s r : String) (n : ℕ)
    → or_zero (lookup r (settle_session d s n)) ≡ (if s == r then n else or_zero (lookup r d))
unfolding settle_session
settle_session_lem d s r zero = ground (arith, lookup-erase s r d)
settle_session_lem d s r (suc n) = ground (arith, lookup-insert s r (suc n) d)

settle-Tracks :
    (g : Gate) (c held : Context)
    → lookup c.request_id g.out ≡ some held
    → held.session_id ≡ c.session_id
    → held.is_stream ≡ c.is_stream
    → Tracks g
    → Tracks (record { ctl = settle g.ctl c; out = erase c.request_id g.out })
unfolding settle session_inflight
settle-Tracks g c held found same_session same_kind t = record {
  unique = erase-IsUnique c.request_id g.out t.unique;
  acquired = λ r. ground (
    arith,
    t.acquired r,
    contains-discard c.request_id r g.ctl.request_acquired,
    lookup-erase c.request_id r g.out,
  );
  inflight = ground (arith, t.inflight, count_if-erase everything c.request_id held g.out t.unique);
  streams = ground (arith, t.streams, count_if-erase streaming c.request_id held g.out t.unique);
  sessions = λ s. ground (
    arith,
    string_eq.beq_iff c.session_id s,
    t.sessions s,
    count_if-erase (of_session s) c.request_id held g.out t.unique,
    settle_session_lem g.ctl.per_session_inflight c.session_id s
        (session_inflight g.ctl c.session_id - 1),
  );
}

absent :
    (g : Gate) (r : String)
    → Tracks g
    → lookup r g.out ≡ none
    → contains r g.ctl.request_acquired ≡ false
absent g r t e = ground (arith, t.acquired r)

present :
    (g : Gate) (r : String) {c : Context}
    → Tracks g
    → lookup r g.out ≡ some c
    → contains r g.ctl.request_acquired ≡ true
present g r t e = ground (arith, t.acquired r)

-- Whatever asks for admission or is released, in any order, every counter stays the number of
-- the requests in flight that it stands for.
pub Step-Tracks : (cfg : Config) {g h : Gate} → Step cfg g h → Tracks g → Tracks h
unfolding release
Step-Tracks cfg (acquires g c b now new) t = acquire-Tracks cfg g c b now new t
Step-Tracks cfg (releases g c held b found same_session same_kind) t =
    rw (present g c.request_id t found) (settle-Tracks g c held found same_session same_kind t)
Step-Tracks cfg (releases_again g c b gone) t = rw (absent g c.request_id t gone) t

pub init-Tracks : Tracks (record { ctl = init; out = [] })
unfolding session_inflight contains lookup
init-Tracks = record {
  unique = tt;
  acquired = λ r. refl;
  inflight = refl;
  streams = refl;
  sessions = λ s. refl;
}

pub Reach-Tracks :
    (cfg : Config) {g : Gate} → Reach cfg (record { ctl = init; out = [] }) g → Tracks g
Reach-Tracks cfg here = init-Tracks
Reach-Tracks cfg (next r s) = Step-Tracks cfg s (Reach-Tracks cfg r)

-- The counters respect the limits of the configuration.
pub record IsWithin (cfg : Config) (ctl : Controller) : Type 0 where
  pub inflight : ctl.inflight_requests ≤ cfg.max_inflight_requests
  pub streams : ctl.active_streams ≤ cfg.max_active_streams
  pub sessions : (s : String) → session_inflight ctl s ≤ cfg.per_session_max_inflight
