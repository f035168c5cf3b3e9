-- ===== src/Gateway/Router.antt =====
-- gateway/llm_router.py: the model routes, the requests that hold a lease on one, and the dynamic
-- registration of routes. The lock makes each method one step. Random choices and fresh ids are
-- arguments; exceptions are values. The two error rates are floats, and are left out.
pub mod Leases
pub mod Grants
pub mod Invariant
pub mod Sound
pub mod Start
pub mod Pending
pub mod Registration
pub mod Keys
pub mod Examples
use safactory.Base.{
  string_eq, option_eq, Bool, Dict, List, Option, String, [], contains, erase, false, if◌then◌else◌,
  insert, keep_if, leb, lookup, map, none, not, some, suc, true, zero, ℕ, ◌&&◌, ◌+◌, ◌-◌, ◌==◌, ◌∷◌,
}

-- `api_key: str | list[str] | None`
pub data ApiKey : Type 0 where
  no_key : ApiKey
  one_key : String → ApiKey
  key_list : List String → ApiKey

-- `LLMRouteConfig`
pub record RouteConfig : Type 0 where
  pub base_url : String
  pub api_key : ApiKey
  pub supports_stream : Bool
  pub max_concurrency : Option ℕ
  pub anthropic_interleaved_thinking : Bool

pub data Source : Type 0 where
  config dynamic : Source

-- `LLMRouteRuntimeState`
pub record RouteState : Type 0 where
  pub route_model : String
  pub healthy : Bool
  pub inflight_requests : ℕ
  pub active_streams : ℕ
  pub route_id : String
  pub source : Source
  pub probe_endpoint : Option String
  pub disabled_api_keys : List (Option String)
  pub key_revision : ℕ

-- The tuple of `_leases`: model, route id, and whether the request streams.
pub record Lease : Type 0 where
  pub model : String
  pub route_id : String
  pub is_stream : Bool

-- `LLMRouteTarget`, less its two fields for retries, which the router does not read.
pub record Target : Type 0 where
  pub route_model : String
  pub base_url : String
  pub api_key : Option String
  pub supports_stream : Bool
  pub max_concurrency : ℕ
  pub anthropic_interleaved_thinking : Bool
  pub route_id : String
  pub lease_id : String
  pub key_revision : ℕ

pub record Router : Type 0 where
  pub per_llm_route_max_concurrency : ℕ
  pub routes : Dict String RouteConfig
  pub states : Dict String RouteState
  pub static_models : List String
  pub pending : Dict String String
  pub leases : Dict String Lease

pub data RouteError : Type 0 where
  model_not_found unhealthy no_available_keys no_streaming concurrency_limit : RouteError
  static_model_conflict model_already_exists registration_in_progress : RouteError
  route_quota_exceeded registration_cancelled route_not_found : RouteError
  key_update_conflict static_model_protected model_in_use : RouteError

pub data Result {ℓ} (A : Type ℓ) : Type ℓ where
  ok : A → Result A
  err : RouteError → Result A

-- `_api_keys`
pub api_keys : ApiKey → List (Option String)
api_keys no_key = none ∷ []
api_keys (one_key k) = some k ∷ []
api_keys (key_list []) = none ∷ []
api_keys (key_list (k ∷ ks)) = map some (k ∷ ks)

pub available_keys : RouteConfig → RouteState → List (Option String)
unfolding api_keys
available_keys route state =
    keep_if (λ k. not (contains k state.disabled_api_keys)) (api_keys route.api_key)

-- `random.choice`, of a list that is not empty: the entry that the choice falls on, counted round.
pub pick : ℕ → Option String → List (Option String) → Option String
pick zero k ks = k
pick (suc n) k [] = k
pick (suc n) k (j ∷ js) = pick n j js

-- `route.max_concurrency if it is not None else the configured default`
pub limit_of : ℕ → RouteConfig → ℕ
limit_of default route = elim route.max_concurrency [ none ↦ default | some m ↦ m ]

pub target_of : Router → String → RouteConfig → RouteState → Option String → Target
unfolding limit_of
target_of r model route state key = record {
  route_model = model;
  base_url = route.base_url;
  api_key = key;
  supports_stream = route.supports_stream;
  max_concurrency = limit_of r.per_llm_route_max_concurrency route;
  anthropic_interleaved_thinking = route.anthropic_interleaved_thinking;
  route_id = state.route_id;
  lease_id = "";
  key_revision = state.key_revision;
}

choose_key : ℕ → List (Option String) → (Option String → Target) → Result Target
choose_key choice [] f = err no_available_keys
choose_key choice (k ∷ ks) f = ok (f (pick choice k ks))

-- The stream test of the source stands between the test for keys and the choice.
no_stream : Bool → Result Target → Result Target
no_stream false t = t
no_stream true (ok t) = err no_streaming
no_stream true (err e) = err e

-- `self._states[requested_model]` would be a KeyError where a route has no state; the router keeps
-- the two dicts in step, and the model answers as for a model that is not configured.
select_from : Router → String → Bool → ℕ → Option RouteConfig → Option RouteState → Result Target
select_from r model is_stream choice none state = err model_not_found
select_from r model is_stream choice (some route) none = err model_not_found
select_from r model is_stream choice (some route) (some state) =
    if not state.healthy
    then err unhealthy
    else no_stream (is_stream && not route.supports_stream)
        (choose_key choice (available_keys route state) (target_of r model route state))

pub select_target : Router → String → Bool → ℕ → Result Target
unfolding select_from target_of choose_key no_stream
select_target r model is_stream choice =
    select_from r model is_stream choice (lookup model r.routes) (lookup model r.states)

pub entered : RouteState → Bool → RouteState
entered s is_stream = record s {
  inflight_requests = s.inflight_requests + 1;
  active_streams = s.active_streams + (if is_stream then 1 else 0);
}

pub left : RouteState → Bool → RouteState
left s was_stream = record s {
  inflight_requests = s.inflight_requests - 1;
  active_streams = s.active_streams - (if was_stream then 1 else 0);
}

pub reserve : Router → String → Bool → String → Target → Option RouteState → Router × Result Target
reserve r model is_stream lease_id target none = (r, err model_not_found)
reserve r model is_stream lease_id target (some s) =
    if leb target.max_concurrency s.inflight_requests then (r, err concurrency_limit) else (
      record r {
        leases =
            insert lease_id (record { model = model; route_id = s.route_id; is_stream = is_stream })
              r.leases;
        states = insert model (entered s is_stream) r.states;
      },
      ok (record target { lease_id = lease_id }),
    )

pub reserve_selected : Router → String → Bool → String → Result Target → Router × Result Target
unfolding reserve entered
reserve_selected r model is_stream lease_id (err e) = (r, err e)
reserve_selected r model is_stream lease_id (ok target) =
    reserve r model is_stream lease_id target (lookup model r.states)

pub acquire_target : Router → String → Bool → ℕ → String → Router × Result Target
acquire_target r model is_stream choice lease_id =
    reserve_selected r model is_stream lease_id (select_target r model is_stream choice)

-- The state is written back only if it is still the one that the lease was taken on.
pub give_back : Router → Lease → Option RouteState → Router
unfolding left
give_back r l none = r
give_back r l (some s) =
    if s.route_id == l.route_id
    then record r { states = insert l.model (left s l.is_stream) r.states }
    else r

pub release_lease : Router → String → Option Lease → Router
release_lease r lease_id none = r
release_lease r lease_id (some l) =
    give_back (record r { leases = erase lease_id r.leases }) l (lookup l.model r.states)

pub release_target : Router → Target → Router
unfolding give_back release_lease
release_target r target = release_lease r target.lease_id (lookup target.lease_id r.leases)
