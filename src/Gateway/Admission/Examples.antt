-- ===== src/Gateway/Admission/Examples.antt =====
-- Tests of the admission controller, and its theorems at concrete inputs.
use safactory.Base.{
  refl, [], arith, contains, count_if, false, lookup, none, some, true, ◌+◌, ◌∷◌, ◌≡◌, ◌≤◌,
}
use safactory.Gateway.Binding.{Binding, Context, step_count_for, increment_step_count}
use safactory.Gateway.Binding.Examples.{fresh}
use safactory.Gateway.Admission.{
  acquire_request, Config, admit, forward, init, is_active, release, session_inflight,
  steps_used_up,
}
use safactory.Gateway.Admission.Tracking.{
  Gate, Step, Step-Tracks, Tracks, acquires, here, init-Tracks, next, streaming, entered,
}
use safactory.Gateway.Admission.Decision.{Admits, forward-iff-Admits, release-acquire}
use safactory.Gateway.Admission.Bounds.{in_flight_bounded}

abbrev pub limits : Config
limits = record {
  max_steps = some 2;
  max_inflight_requests = 4;
  max_active_streams = 1;
  per_session_max_inflight = 1;
}

abbrev pub request : Context
request = record {
  request_id = "r1";
  session_id = "s1";
  requested_model = "m1";
  endpoint = "chat/completions";
  is_stream = true;
  created_at = 101;
  llm_step_index = none;
  synthetic_stop = false;
  job_id = none;
}

abbrev start : Gate
start = record { ctl = init; out = [] }

first_request : (acquire_request limits init request fresh 101).2 ≡ forward 1
unfolding acquire_request admit is_active steps_used_up session_inflight step_count_for lookup
    increment_step_count
first_request = refl

request-Admits : Admits limits init request fresh
unfolding step_count_for session_inflight lookup
request-Admits = record {
  open_session = refl;
  serving = refl;
  steps_left = omega arith;
  room = omega arith;
  stream_room = λ h. omega arith;
  session_room = omega arith;
}

abbrev used_up : Binding
used_up = record fresh { llm_step_count = 2; llm_step_count_by_model = ("m1", 2) ∷ [] }

abbrev admitted : Gate
admitted = record {
  ctl = (acquire_request limits init request fresh 101).0;
  out = entered [] request (acquire_request limits init request fresh 101).2;
}

admitted-Step : Step limits start admitted
unfolding lookup
admitted-Step = acquires start request fresh 101 refl

forward-iff-Admits_example :
    (acquire_request limits init request fresh 101).2 ≡ forward (step_count_for fresh "m1" + 1)
forward-iff-Admits_example = (forward-iff-Admits limits init request fresh 101).1 request-Admits

release-acquire_example :
    (release
      (acquire_request limits init request fresh 101).0
      (some request)
      (some (acquire_request limits init request fresh 101).1)).0.inflight_requests
    ≡ 0
unfolding contains
release-acquire_example = (release-acquire limits init request fresh 101 refl request-Admits).0

Step-Tracks_example : Tracks admitted
Step-Tracks_example = Step-Tracks limits admitted-Step init-Tracks

in_flight_bounded_example : count_if streaming admitted.out ≤ 1
in_flight_bounded_example = (in_flight_bounded limits (next here admitted-Step)).1
