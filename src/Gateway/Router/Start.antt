-- ===== src/Gateway/Router/Start.antt =====
-- gateway/llm_router.py: the router that a configuration gives, and every router that its methods
-- lead to. The ids of the routes are drawn by an argument, and `str.strip` is one.
use safactory.Base.{
  string_eq, option_eq, nat_eq, arith, Dict, IsUnique, String, [], ap, is_some, lookup, map, none,
  refl, some, true, ℕ, ◌∷◌, ◌≡◌,
}
use safactory.Gateway.Router.{Router, RouteConfig, RouteState, config}
use safactory.Gateway.Router.Invariant.{IsSound}
use safactory.Gateway.Router.Sound.{after-IsSound, Call, after}

-- `LLMRouteRuntimeState(route_model=model)`
unfoldable pub config_state : (String → String) → String → RouteState
config_state ids model = record {
  route_model = model;
  healthy = true;
  inflight_requests = 0;
  active_streams = 0;
  route_id = ids model;
  source = config;
  probe_endpoint = none;
  disabled_api_keys = [];
  key_revision = 0;
}

unfoldable pub config_states : (String → String) → Dict String RouteConfig → Dict String RouteState
unfolding config_state
config_states ids [] = []
config_states ids ((m, c) ∷ d) = (m, config_state ids m) ∷ config_states ids d

-- `LLMRouter.__init__`
unfoldable pub init : (String → String) → (String → String) → ℕ → Dict String RouteConfig → Router
unfolding config_states
init strip ids max_concurrency routes = record {
  per_llm_route_max_concurrency = max_concurrency;
  routes = routes;
  states = config_states ids routes;
  static_models = map (λ e. strip e.0) routes;
  pending = [];
  leases = [];
}

lookup-config_states :
    (ids : String → String) (m : String) (d : Dict String RouteConfig)
    → is_some (lookup m d) ≡ is_some (lookup m (config_states ids d))
unfolding config_states lookup
lookup-config_states ids m [] = refl
lookup-config_states ids m ((j, c) ∷ d) = ground (arith, lookup-config_states ids m d)

found_config :
    (ids : String → String) (m : String) (d : Dict String RouteConfig) (s : RouteState)
    → lookup m (config_states ids d) ≡ some s
    → s ≡ config_state ids m
unfolding config_states lookup
found_config ids m [] s h = absurd (cc h)
found_config ids m ((j, c) ∷ d) s h = ground (arith, string_eq.beq_iff j m, found_config ids m d s)

config_states-IsUnique :
    (ids : String → String) (d : Dict String RouteConfig)
    → IsUnique d
    → IsUnique (config_states ids d)
unfolding config_states
config_states-IsUnique ids [] u = tt
config_states-IsUnique ids ((m, c) ∷ d) u =
    (ground (arith, u.0, lookup-config_states ids m d), config_states-IsUnique ids d u.1)

init-IsSound :
    (strip ids : String → String) (n : ℕ) (routes : Dict String RouteConfig)
    → IsUnique routes
    → IsSound (init strip ids n routes)
unfolding init config_state lookup
init-IsSound strip ids n routes u = record {
  counted = record {
    unique = tt;
    at = λ m s found. record {
      inflight = ap (λ (t : RouteState). t.inflight_requests) (found_config ids m routes s found);
      streams = ap (λ (t : RouteState). t.active_streams) (found_config ids m routes s found);
    };
  };
  exclusive = record {
    apart = λ m h. absurd (cc h);
    paired = λ m. lookup-config_states ids m routes;
    named = λ m s found. ap (λ (t : RouteState). t.route_model) (found_config ids m routes s found);
  };
  unique_states = config_states-IsUnique ids routes u;
}

-- The routers that calls lead to.
pub data Reach : Router → Type 0 where
  starts :
      (strip ids : String → String) (n : ℕ) (routes : Dict String RouteConfig)
      → IsUnique routes
      → Reach (init strip ids n routes)
  calls : {r : Router} → Reach r → (c : Call r) → Reach (after r c)

-- From the start, after any sequence of calls, the counters of each route are the leases that
-- requests hold on it, a name is either being registered or a route, and each route has one state,
-- under its name. A lease id and a route id are new when they are drawn.
pub Reach-IsSound : {r : Router} → Reach r → IsSound r
Reach-IsSound (starts strip ids n routes u) = init-IsSound strip ids n routes u
Reach-IsSound (calls {r} reached c) = after-IsSound r c (Reach-IsSound reached)
