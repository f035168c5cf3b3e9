-- ===== src/Gateway/Router/Examples.antt =====
-- Tests of the router, and its theorems at concrete inputs.
use safactory.Base.{
  ◌≢◌, List, string_eq, option_eq, nat_eq, [], arith, contains, erase, false, insert, lookup, none,
  refl, some, true, ◌∷◌, ◌≡◌, Option, String, add, ap, count_if, ◌↔◌, subst,
}
use safactory.Gateway.Router.{
  Router, RouteConfig, RouteState, Target, acquire_target, api_keys, available_keys, choose_key,
  dynamic, entered, give_back, key_list, left, limit_of, model_not_found, no_stream, ok, pick,
  release_lease, release_target, reserve, reserve_selected, select_from, select_target, target_of,
  err, one_key, registration_cancelled,
}
use safactory.Gateway.Router.Leases.{on}
use safactory.Gateway.Router.Grants.{acquire_grants, Lets}
use safactory.Gateway.Router.Registration.{
  state_with_id, abort_registration, delete_route, delete_state, is_config, publish_registration,
  quota_reached, reserve_registration,
}
use safactory.Gateway.Router.Registration.Exclusive.{publish_lem}
use safactory.Gateway.Router.Pending.{reserve_excludes, Unsettled, still, then_calls}
use safactory.Gateway.Router.Keys.{
  retry_target, candidates, disable_api_key, disabled_in, next_key, replace_api_keys, retry_on,
  retry_with,
}
use safactory.Gateway.Router.Keys.Rotation.{retry_lem}
use safactory.Gateway.Router.Keys.Replacing.{replace_lem, IsReplaced}
use safactory.Gateway.Router.Invariant.{IsSound}
use safactory.Gateway.Router.Invariant.Naming.{delete_route_lem, IsReservable}
use safactory.Gateway.Router.Start.{Reach, Reach-IsSound, calls, init, starts}
use safactory.Gateway.Router.Sound.{acquires, after, reserves}

abbrev route : RouteConfig
route = record {
  base_url = "http://m";
  api_key = key_list ("k1" ∷ "k2" ∷ []);
  supports_stream = true;
  max_concurrency = some 2;
  anthropic_interleaved_thinking = false;
}

abbrev state : RouteState
state = record {
  route_model = "m";
  healthy = true;
  inflight_requests = 0;
  active_streams = 0;
  route_id = "rt_1";
  source = dynamic;
  probe_endpoint = none;
  disabled_api_keys = [];
  key_revision = 0;
}

abbrev single : Router
single = record {
  per_llm_route_max_concurrency = 8;
  routes = ("m", route) ∷ [];
  states = ("m", state) ∷ [];
  static_models = [];
  pending = ("n", "op1") ∷ [];
  leases = [];
}

abbrev leased : Router
leased = record single {
  states = ("m", record state { inflight_requests = 1; active_streams = 1 }) ∷ [];
  leases = ("l1", record { model = "m"; route_id = "rt_1"; is_stream = true }) ∷ [];
}

abbrev target : Target
target = record {
  route_model = "m";
  base_url = "http://m";
  api_key = some "k1";
  supports_stream = true;
  max_concurrency = 2;
  anthropic_interleaved_thinking = false;
  route_id = "rt_1";
  lease_id = "l1";
  key_revision = 0;
}

acquire_first : acquire_target single "m" true 0 "l1" ≡ (leased, ok target)
unfolding acquire_target select_target select_from reserve_selected reserve entered available_keys
    api_keys choose_key no_stream pick target_of limit_of contains lookup insert
acquire_first = refl

release_last : release_target leased target ≡ single
unfolding release_target release_lease give_back left lookup insert erase
release_last = refl

single-IsSound : IsSound single
unfolding lookup
single-IsSound = record {
  counted = record {
    unique = tt;
    at = λ m s found. record { inflight = ground arith; streams = ground arith };
  };
  exclusive = record {
    apart = λ m h.
        let same : "n" ≡ m = ground (arith, string_eq.beq_iff "n" m) in
        subst (λ k. lookup k single.routes ≡ none) same refl;
    paired = λ m. ground arith;
    named = λ m s found. ground (arith, string_eq.beq_iff "m" m);
  };
  unique_states = (refl, tt);
}

single-Lets : Lets single "m" true route state
unfolding lookup api_keys contains limit_of
single-Lets = record {
  routed = refl;
  stated = refl;
  healthy = refl;
  key = some "k2";
  keyed = (refl, refl);
  streams = λ _. refl;
  room = omega arith;
}

abbrev configured : Router
configured = init (λ m. m) (λ m. m) 8 (("m", route) ∷ [])

new_lease : lookup "l1" configured.leases ≡ none
unfolding init lookup
new_lease = refl

configured-Reach : Reach configured
unfolding lookup
configured-Reach = starts (λ m. m) (λ m. m) 8 (("m", route) ∷ []) (refl, tt)

Reach-IsSound_example : IsSound (after configured (acquires "m" true 0 "l1" new_lease))
Reach-IsSound_example = Reach-IsSound (calls configured-Reach (acquires "m" true 0 "l1" new_lease))

acquire_grants_example :
    lookup "m" (acquire_target single "m" true 0 "l1").0.states
    ≡ some (record state { inflight_requests = 1; active_streams = 1 })
acquire_grants_example = (acquire_grants single "m" true 0 "l1" route state single-Lets).11

no_route : (acquire_target single "x" true 0 "l1").1 ≡ err model_not_found
unfolding acquire_target select_target reserve_selected select_from lookup
no_route = refl

abbrev rotated : Router
rotated = record leased {
  states =
      (
        "m",
        record state {
          inflight_requests = 1;
          active_streams = 1;
          disabled_api_keys = some "k1" ∷ [];
        },
      )
      ∷ [];
}

retry_second :
    retry_target leased target (some "k1" ∷ []) 0
    ≡ (rotated, some (record target { api_key = some "k2" }))
unfolding retry_target retry_on retry_with next_key candidates available_keys api_keys pick
    disable_api_key disabled_in contains add lookup insert
retry_second = refl

retry_lem_example :
    let r' = (retry_target leased target (some "k1" ∷ []) 0).0 in
    (route : RouteConfig) × (s : RouteState) × (lookup "m" r'.routes ≡ some route)
    × (lookup "m" r'.states ≡ some s)
    × (contains {K = Option String} (some "k2") (api_keys route.api_key) ≡ true)
    × (contains {K = Option String} (some "k2") s.disabled_api_keys ≡ false)
    × (contains {K = Option String} (some "k2") (some "k1" ∷ []) ≡ false)
    × (◌≡◌ {A = String} s.route_id "rt_1")
    × (record target { api_key = some "k2" }
        ≡ record target { api_key = some "k2"; key_revision = s.key_revision })
retry_lem_example =
    retry_lem leased target (record target { api_key = some "k2" }) (some "k1" ∷ []) 0
      (ap (λ q. q.1) retry_second)

found_by_id : state_with_id "rt_1" single.states ≡ some state
unfolding state_with_id
found_by_id = refl

replace_lem_example :
    IsReplaced single 0 "p" [] "rt_1" state (replace_api_keys single "rt_1" 0 (one_key "k3") "p" [])
replace_lem_example =
    replace_lem single 0 (one_key "k3") "p" [] "rt_1" state single-IsSound found_by_id

publish_lem_example :
    let q = publish_registration single "n" "op1" route "p" [] "rt_2" in
    ((q.1 ≡ ok tt) ↔ (lookup "n" single.pending ≡ some "op1"))
    × ((q.1 ≡ ok tt)
        → (lookup "n" single.routes ≡ none)
          × (lookup "n" q.0.routes ≡ some route)
          × (lookup "n" q.0.pending ≡ none))
publish_lem_example = publish_lem single "n" "op1" route "p" [] "rt_2" single-IsSound.exclusive

reserves_new : (reserve_registration single "x" "a").1 ≡ ok tt
unfolding reserve_registration quota_reached lookup contains
reserves_new = refl

abbrev reserved : Router
reserved = (reserve_registration single "x" "a").0

-- Another registration tries to reserve the name.
tried : Unsettled "x" "a" reserved (reserve_registration reserved "x" "b").0
unfolding after
tried = then_calls still (reserves "x" "b") (λ never. never)

other_op : ◌≢◌ {A = String} "b" "a"
other_op = ground (arith, string_eq.beq_iff "b" "a")

reserve_excludes_example :
    let q = (reserve_registration reserved "x" "b").0 in
    ((reserve_registration q "x" "b").1 ≢ ok tt)
    × ((reserve_registration q "x" "b").0 ≡ q)
    × ((c : RouteConfig) (probe : String) (disabled : List (Option String)) (id : String)
        → (publish_registration q "x" "b" c probe disabled id ≡ (q, err registration_cancelled))
          × ((publish_registration q "x" "a" c probe disabled id).1 ≡ ok tt))
    × (abort_registration q "x" "b" ≡ q)
    × (lookup "x" (abort_registration q "x" "a").pending ≡ none)
reserve_excludes_example =
    reserve_excludes single (reserve_registration reserved "x" "b").0 "x" "a" "b" reserves_new tried
      other_op

deletes_single : (delete_route single "rt_1").1 ≡ ok tt
unfolding delete_route delete_state state_with_id is_config
deletes_single = refl

delete_route_lem_example :
    (state.source ≡ dynamic)
    × (count_if (on "m" "rt_1") single.leases ≡ 0)
    × (lookup "m" (delete_route single "rt_1").0.routes ≡ none)
    × (lookup "m" (delete_route single "rt_1").0.states ≡ none)
    × IsReservable single (delete_route single "rt_1").0 "m"
delete_route_lem_example =
    delete_route_lem single "rt_1" state single-IsSound found_by_id deletes_single
