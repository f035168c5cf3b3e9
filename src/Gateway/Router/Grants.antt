-- ===== src/Gateway/Router/Grants.antt =====
-- What a granted lease promises, and what a refused one leaves.
use safactory.Base.{
  Eq, keep_if, if◌then◌else◌, ◌+◌, string_eq, option_eq, ==-self, Bool, List, Option, String, [],
  arith, contains, lookup, refl, some, suc, true, zero, ℕ, ◌<◌, ◌∷◌, ◌≡◌, ◌≢◌, false, leb,
  lookup-insert, not, ◌&&◌,
}
use safactory.Gateway.Router.{
  api_keys, Router, RouteConfig, RouteState, Target, acquire_target, available_keys, choose_key,
  entered, limit_of, ok, pick, reserve, reserve_selected, target_of, Lease, select_from,
  select_target, no_stream,
}

module _ {ℓ} {A : Type ℓ} ⦃e : Eq A⦄ where
  pub contains-keep_if :
      (test : A → Bool) (a : A) (xs : List A)
      → contains a (keep_if test xs) ≡ true
      → (contains a xs ≡ true) × (test a ≡ true)
  unfolding contains
  contains-keep_if test a [] h = cc
  contains-keep_if test a (x ∷ xs) h = ground (arith, e.beq_iff x a, contains-keep_if test a xs)

  keep_if-contains :
      (test : A → Bool) (a : A) (xs : List A)
      → contains a xs ≡ true
      → test a ≡ true
      → contains a (keep_if test xs) ≡ true
  unfolding contains
  keep_if-contains test a [] h k = cc
  keep_if-contains test a (x ∷ xs) h k = ground (arith, e.beq_iff x a, keep_if-contains test a xs)

-- The available keys are those that are configured and not disabled.
pub available_lem :
    (route : RouteConfig) (s : RouteState) (k : Option String)
    → contains k (available_keys route s) ≡ true
    → (contains k (api_keys route.api_key) ≡ true) × (contains k s.disabled_api_keys ≡ false)
unfolding available_keys
available_lem route s k h =
    let (listed, enabled) =
      contains-keep_if (λ j. not (contains j s.disabled_api_keys)) k (api_keys route.api_key) h in
    (listed, ground arith)

available_some :
    (route : RouteConfig) (s : RouteState) (k : Option String)
    → contains k (api_keys route.api_key) ≡ true
    → contains k s.disabled_api_keys ≡ false
    → available_keys route s ≢ []
unfolding available_keys contains
available_some route s k listed enabled none_left =
    let there : contains k (available_keys route s) ≡ true =
      keep_if-contains (λ j. not (contains j s.disabled_api_keys)) k (api_keys route.api_key) listed
        (ground arith) in
    absurd (nothing_in k (available_keys route s) none_left there)
  where
    nothing_in :
        (k : Option String) (ks : List (Option String)) → ks ≡ [] → contains k ks ≡ true → ⊥
    nothing_in k [] e h = absurd (cc h)
    nothing_in k (j ∷ js) e h = absurd (cc e)

-- The route and its state let a request through.
pub record Lets (r : Router) (model : String) (is_stream : Bool) (route : RouteConfig)
    (s : RouteState) : Type 0 where
  pub routed : lookup model r.routes ≡ some route
  pub stated : lookup model r.states ≡ some s
  pub healthy : s.healthy ≡ true
  pub key : Option String
  pub keyed :
      (contains key (api_keys route.api_key) ≡ true) × (contains key s.disabled_api_keys ≡ false)
  pub streams : (is_stream ≡ true) → route.supports_stream ≡ true
  pub room : s.inflight_requests < limit_of r.per_llm_route_max_concurrency route

pub pick_mem :
    (n : ℕ) (k : Option String) (ks : List (Option String)) → contains (pick n k ks) (k ∷ ks) ≡ true
unfolding pick contains
pick_mem zero k ks = ground (arith, ==-self k)
pick_mem (suc n) k [] = ground (arith, ==-self k)
pick_mem (suc n) k (j ∷ js) = ground (arith, pick_mem n j js)

choose_key_lem :
    (choice : ℕ) (ks : List (Option String)) (f : Option String → Target)
    → ks ≢ []
    → (k : Option String) × (contains k ks ≡ true) × (choose_key choice ks f ≡ ok (f k))
unfolding choose_key
choose_key_lem choice [] f h = absurd (h refl)
choose_key_lem choice (k ∷ ks) f h = (pick choice k ks, pick_mem choice k ks, refl)

select_from_lem :
    (r : Router) (model : String) (is_stream : Bool) (choice : ℕ) (route : RouteConfig)
    (s : RouteState) (t : Target)
    → s.healthy ≡ true
    → (is_stream && not route.supports_stream) ≡ false
    → choose_key choice (available_keys route s) (target_of r model route s) ≡ ok t
    → select_from r model is_stream choice (some route) (some s) ≡ ok t
unfolding select_from no_stream
select_from_lem r model is_stream choice route s t healthy open_stream chosen = ground arith

select_lem :
    (r : Router) (model : String) (is_stream : Bool) (choice : ℕ) (route : RouteConfig)
    (s : RouteState)
    → Lets r model is_stream route s
    → (k : Option String) × (contains k (available_keys route s) ≡ true)
      × (select_target r model is_stream choice ≡ ok (target_of r model route s k))
unfolding select_target
select_lem r model is_stream choice route s lets =
    let (k, available, chosen) =
      choose_key_lem choice (available_keys route s) (target_of r model route s)
        (available_some route s lets.key lets.keyed.0 lets.keyed.1) in
    let open_stream : (is_stream && not route.supports_stream) ≡ false =
      ground (arith, lets.streams) in
    (
      k,
      available,
      rw (lets.routed, lets.stated)
          (select_from_lem r model is_stream choice route s _ lets.healthy open_stream chosen),
    )

reserve_ok :
    (r : Router) (model : String) (is_stream : Bool) (lease_id : String) (t : Target)
    (s : RouteState)
    → leb t.max_concurrency s.inflight_requests ≡ false
    → let q = reserve r model is_stream lease_id t (some s) in
      (q.1 ≡ ok (record t { lease_id = lease_id }))
      × (lookup lease_id q.0.leases
          ≡ some (record { model = model; route_id = s.route_id; is_stream = is_stream }))
      × (lookup model q.0.states ≡ some (entered s is_stream))
unfolding reserve
reserve_ok r model is_stream lease_id t s room =
    let l : Lease = record { model = model; route_id = s.route_id; is_stream = is_stream } in
    rw room (
      refl,
      rw (lookup-insert lease_id lease_id l r.leases, ==-self lease_id),
      rw (lookup-insert model model (entered s is_stream) r.states, ==-self model),
    )

-- A request is granted a lease whenever its route is configured and healthy, has a key that is not
-- disabled, streams if the request does, and has room: the target has the route's address and limit,
-- its id and revision, and a configured key that is not disabled; the lease is recorded for this life
-- of the route, its requests count one more, and its streams one more where the request streams.
pub acquire_grants :
    (r : Router) (model : String) (is_stream : Bool) (choice : ℕ) (lease_id : String)
    (route : RouteConfig) (s : RouteState)
    → Lets r model is_stream route s
    → let q = acquire_target r model is_stream choice lease_id in
      (t : Target) × (q.1 ≡ ok t)
      × (contains t.api_key (api_keys route.api_key) ≡ true)
      × (contains t.api_key s.disabled_api_keys ≡ false)
      × (t.route_model ≡ model)
      × (t.base_url ≡ route.base_url)
      × (t.max_concurrency ≡ limit_of r.per_llm_route_max_concurrency route)
      × (t.route_id ≡ s.route_id)
      × (t.lease_id ≡ lease_id)
      × (t.key_revision ≡ s.key_revision)
      × (lookup lease_id q.0.leases
          ≡ some (record { model = model; route_id = s.route_id; is_stream = is_stream }))
      × (lookup model q.0.states
          ≡ some (record s {
            inflight_requests = s.inflight_requests + 1;
            active_streams = s.active_streams + (if is_stream then 1 else 0);
          }))
unfolding acquire_target reserve_selected target_of entered
acquire_grants r model is_stream choice lease_id route s lets =
    let (k, available, selected) = select_lem r model is_stream choice route s lets in
    let room : leb (limit_of r.per_llm_route_max_concurrency route) s.inflight_requests ≡ false =
      ground (arith, lets.room) in
    let t = target_of r model route s k in
    let granted = reserve_ok r model is_stream lease_id t s room in
    let (listed, enabled) = available_lem route s k available in
    (
      record t { lease_id = lease_id },
      rw (selected, reserve_selected, lets.stated, granted.0),
      listed,
      enabled,
      refl,
      refl,
      refl,
      refl,
      refl,
      refl,
      rw (selected, reserve_selected, lets.stated, granted.1),
      rw (selected, reserve_selected, lets.stated, granted.2),
    )
