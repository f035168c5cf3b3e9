-- ===== src/Gateway/Router/Registration.antt =====
-- gateway/llm_router.py: dynamic registration and deletion of routes. An operation first reserves
-- its model's name, and publishes or aborts once the endpoint has been probed.
pub mod Exclusive
use safactory.Base.{
  option_eq, string_eq, Bool, Dict, List, Option, String, [], contains, erase, false, if◌then◌else◌,
  insert, is_some, leb, length, lookup, ltb, none, some, true, ◌+◌, ◌==◌, ◌||◌, ◌∷◌, Bool-cases,
  IsUnique, inl, inr, ◌≡◌, ==-self, arith,
}
use safactory.Gateway.Router.{
  Router, Result, RouteConfig, RouteState, Source, config, dynamic, err, model_already_exists,
  model_in_use, ok, registration_cancelled, registration_in_progress, route_quota_exceeded,
  static_model_conflict, static_model_protected,
}

-- `len(routes) - len(static_models) + len(pending) >= 256`; the difference is an integer in the
-- source, so the static models stand on the other side.
unfoldable pub quota_reached : Router → Bool
quota_reached r = leb (256 + length r.static_models) (length r.routes + length r.pending)

unfoldable pub reserve_registration : Router → String → String → Router × Result (Unit {0})
unfolding quota_reached
reserve_registration r model operation_id =
    if contains model r.static_models
    then (r, err static_model_conflict)
    else if is_some (lookup model r.routes)
    then (r, err model_already_exists)
    else if is_some (lookup model r.pending)
    then (r, err registration_in_progress)
    else if quota_reached r
    then (r, err route_quota_exceeded)
    else (record r { pending = insert model operation_id r.pending }, ok tt)

-- `self._pending.get(model) == operation_id`
unfoldable pub is_current : Router → String → String → Bool
is_current r model operation_id = lookup model r.pending == some operation_id

-- `LLMRouteRuntimeState(...)` of a dynamic route, under the id `rt_...` that it draws.
unfoldable pub new_state : String → String → String → List (Option String) → RouteState
new_state model route_id probe_endpoint disabled = record {
  route_model = model;
  healthy = true;
  inflight_requests = 0;
  active_streams = 0;
  route_id = route_id;
  source = dynamic;
  probe_endpoint = some probe_endpoint;
  disabled_api_keys = disabled;
  key_revision = 0;
}

unfoldable pub publish_registration :
    Router
    → String
    → String
    → RouteConfig
    → String
    → List (Option String)
    → String
    → Router × Result (Unit {0})
unfolding new_state is_current
publish_registration r model operation_id route probe_endpoint disabled route_id =
    if is_current r model operation_id
    then (
      record r {
        routes = insert model route r.routes;
        states = insert model (new_state model route_id probe_endpoint disabled) r.states;
        pending = erase model r.pending;
      },
      ok tt,
    )
    else (r, err registration_cancelled)

unfoldable pub abort_registration : Router → String → String → Router
unfolding is_current
abort_registration r model operation_id =
    if is_current r model operation_id then record r { pending = erase model r.pending } else r

-- `next((state for state in states.values() if state.route_id == route_id), None)`
unfoldable pub state_with_id : String → Dict String RouteState → Option RouteState
state_with_id id [] = none
state_with_id id ((m, s) ∷ d) = if s.route_id == id then some s else state_with_id id d

unfoldable pub is_config : Source → Bool
is_config config = true
is_config dynamic = false

unfoldable pub delete_state : Router → Option RouteState → Router × Result (Unit {0})
delete_state r none = (r, ok tt)
delete_state r (some s) =
    if is_config s.source
    then (r, err static_model_protected)
    else if ltb 0 s.inflight_requests || ltb 0 s.active_streams
    then (r, err model_in_use)
    else (
      record r { routes = erase s.route_model r.routes; states = erase s.route_model r.states },
      ok tt,
    )

unfoldable pub delete_route : Router → String → Router × Result (Unit {0})
unfolding delete_state is_config
delete_route r route_id = delete_state r (state_with_id route_id r.states)

-- The state that is found by its id, in a dict.
pub state_with_id_lem :
    (id : String) (d : Dict String RouteState) (s : RouteState)
    → IsUnique d
    → state_with_id id d ≡ some s
    → (m : String) × (lookup m d ≡ some s) × (s.route_id ≡ id)
unfolding state_with_id lookup
state_with_id_lem id [] s u h = absurd (cc h)
state_with_id_lem id ((j, w) ∷ d) s u h = elim (Bool-cases (w.route_id == id)) [
  | inl same ↦ (j, ground (arith, ==-self j), ground (arith, string_eq.beq_iff w.route_id id))
  | inr other ↦
      let later : state_with_id id d ≡ some s = ground arith in
      let (m, found, same) = state_with_id_lem id d s u.1 later in
      (m, ground (arith, string_eq.beq_iff j m, u.0), same)
]
