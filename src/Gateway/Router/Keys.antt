-- ===== src/Gateway/Router/Keys.antt =====
-- gateway/llm_router.py: the API keys of a route. A key that the endpoint refuses is disabled, and
-- a replacement of the keys makes the targets of the older revision harmless.
pub mod Rotation
pub mod Replacing
use safactory.Base.{
  string_eq, option_eq, nat_eq, Bool, Dict, List, Option, String, [], add, contains, false,
  if◌then◌else◌, insert, keep_if, lookup, none, not, some, true, ℕ, ◌&&◌, ◌+◌, ◌==◌, ◌∷◌,
}
use safactory.Gateway.Router.{
  Router, ApiKey, Result, RouteConfig, RouteState, Target, available_keys, err, key_update_conflict,
  ok, pick, route_not_found,
}
use safactory.Gateway.Router.Registration.{state_with_id}

unfoldable pub disabled_in : Router → Target → Option RouteState → Router × Bool
disabled_in r t none = (r, false)
disabled_in r t (some s) =
    if s.route_id == t.route_id && s.key_revision == t.key_revision
    then (
      record r {
        states =
            insert t.route_model
              (record s { disabled_api_keys = add t.api_key s.disabled_api_keys }) r.states;
      },
      true,
    )
    else (r, false)

unfoldable pub disable_api_key : Router → Target → Router × Bool
unfolding disabled_in
disable_api_key r t = disabled_in r t (lookup t.route_model r.states)

unfoldable pub next_key : ℕ → Target → ℕ → List (Option String) → Option Target
next_key choice t revision [] = none
next_key choice t revision (k ∷ ks) =
    some (record t { api_key = pick choice k ks; key_revision = revision })

unfoldable pub candidates : RouteConfig → RouteState → List (Option String) → List (Option String)
candidates route s attempted = keep_if (λ k. not (contains k attempted)) (available_keys route s)

-- After the disabling: the state is read again, as the source's is the object that was changed.
unfoldable pub retry_with :
    List (Option String) → ℕ → Target → Option RouteConfig → Option RouteState → Option Target
unfolding next_key candidates
retry_with attempted choice t route none = none
retry_with attempted choice t none (some s) = none
retry_with attempted choice t (some route) (some s) =
    if not s.healthy then none else next_key choice t s.key_revision (candidates route s attempted)

unfoldable pub retry_on :
    Router → Target → List (Option String) → ℕ → Option RouteState → Router × Option Target
unfolding retry_with
retry_on r t attempted choice none = (r, none)
retry_on r t attempted choice (some s) =
    if not (s.route_id == t.route_id)
    then (r, none)
    else let r' = (disable_api_key r t).0 in
      (
        r',
        retry_with attempted choice t (lookup t.route_model r'.routes)
            (lookup t.route_model r'.states),
      )

unfoldable pub retry_target : Router → Target → List (Option String) → ℕ → Router × Option Target
unfolding retry_on
retry_target r t attempted choice = retry_on r t attempted choice (lookup t.route_model r.states)

unfoldable pub with_keys :
    String → ApiKey → Dict String RouteConfig → Option RouteConfig → Dict String RouteConfig
with_keys model keys routes none = routes
with_keys model keys routes (some c) = insert model (record c { api_key = keys }) routes

unfoldable pub renewed : RouteState → String → List (Option String) → RouteState
renewed s probe disabled = record s {
  disabled_api_keys = disabled;
  probe_endpoint = some probe;
  key_revision = s.key_revision + 1;
}

unfoldable pub replaced : Router → ApiKey → String → List (Option String) → RouteState → Router
unfolding with_keys renewed
replaced r keys probe disabled s = record r {
  routes = with_keys s.route_model keys r.routes (lookup s.route_model r.routes);
  states = insert s.route_model (renewed s probe disabled) r.states;
}

unfoldable pub replace_on :
    Router
    → ℕ
    → ApiKey
    → String
    → List (Option String)
    → Option RouteState
    → Router × Result (Unit {0})
replace_on r expected keys probe disabled none = (r, err route_not_found)
replace_on r expected keys probe disabled (some s) =
    if s.key_revision == expected
    then (replaced r keys probe disabled s, ok tt)
    else (r, err key_update_conflict)

unfoldable pub replace_api_keys :
    Router → String → ℕ → ApiKey → String → List (Option String) → Router × Result (Unit {0})
unfolding replace_on
replace_api_keys r route_id expected keys probe disabled =
    replace_on r expected keys probe disabled (state_with_id route_id r.states)
