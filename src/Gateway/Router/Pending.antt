-- ===== src/Gateway/Router/Pending.antt =====
-- A registration's hold on its name, whatever other calls come before it ends.
use safactory.Base.{
  ap, ◌∙◌, string_eq, option_eq, nat_eq, Bool, List, Option, String, arith, erase, if_elim, leb,
  lookup, lookup-erase, lookup-insert, ltb, none, not, refl, some, ℕ, ◌&&◌, ◌==◌, ◌||◌, ◌≡◌, ◌≢◌,
  ==-self, option_beq_iff,
}
use safactory.Gateway.Router.{
  Router, ApiKey, Lease, Result, RouteConfig, RouteState, Target, acquire_target, err, give_back,
  ok, release_lease, release_target, reserve, reserve_selected, select_target,
  registration_cancelled,
}
use safactory.Gateway.Router.Registration.{
  abort_registration, delete_route, delete_state, is_config, is_current, publish_registration,
  reserve_registration, state_with_id,
}
use safactory.Gateway.Router.Keys.{
  retry_target, disable_api_key, disabled_in, replace_api_keys, replace_on, replaced, retry_on,
}
use safactory.Gateway.Router.Sound.{
  Call, after, acquires, releases, disables, retries, reserves, publishes, aborts, replaces,
  deletes,
}

-- The call publishes or aborts this registration of this name.

abbrev pub Settles : (model op : String) (r : Router) → Call r → Type 0
Settles model op r (publishes m o route probe disabled id new new') = (m ≡ model) × (o ≡ op)
Settles model op r (aborts m o) = (m ≡ model) × (o ≡ op)
Settles model op r _ = ⊥

-- Calls one after the other, none of which settles the registration.
pub data Unsettled (model op : String) (r : Router) : Router → Type 0 where
  still : Unsettled model op r r
  then_calls :
      {q : Router}
      → Unsettled model op r q
      → (c : Call q) → ¬ Settles model op q c
      → Unsettled model op r (after q c)

acquire-pending :
    (r : Router) (model : String) (is_stream : Bool) (lease_id : String) (t : Result Target)
    → (reserve_selected r model is_stream lease_id t).0.pending ≡ r.pending
unfolding reserve_selected reserve
acquire-pending r model is_stream lease_id (err e) = refl
acquire-pending r model is_stream lease_id (ok t) = reserved (lookup model r.states)
  where
    reserved :
        (o : Option RouteState) → (reserve r model is_stream lease_id t o).0.pending ≡ r.pending
    reserved none = refl
    reserved (some s) =
        if_elim (λ (q : Router × Result Target). q.0.pending ≡ r.pending)
          (leb t.max_concurrency s.inflight_requests) _ _ refl refl

release-pending :
    (r : Router) (lease_id : String) (o : Option Lease)
    → (release_lease r lease_id o).pending ≡ r.pending
unfolding release_lease give_back
release-pending r lease_id none = refl
release-pending r lease_id (some l) =
    given (record r { leases = erase lease_id r.leases }) (lookup l.model r.states)
  where
    given : (q : Router) (p : Option RouteState) → (give_back q l p).pending ≡ q.pending
    given q none = refl
    given q (some s) =
        if_elim (λ (x : Router). x.pending ≡ q.pending) (s.route_id == l.route_id) _ _ refl refl

disable-pending :
    (r : Router) (t : Target) (o : Option RouteState) → (disabled_in r t o).0.pending ≡ r.pending
unfolding disabled_in
disable-pending r t none = refl
disable-pending r t (some s) =
    if_elim (λ (q : Router × Bool). q.0.pending ≡ r.pending)
      (s.route_id == t.route_id && s.key_revision == t.key_revision) _ _ refl refl

retry-pending :
    (r : Router) (t : Target) (attempted : List (Option String)) (choice : ℕ)
    (o : Option RouteState)
    → (retry_on r t attempted choice o).0.pending ≡ r.pending
unfolding retry_on disable_api_key
retry-pending r t attempted choice none = refl
retry-pending r t attempted choice (some s) =
    if_elim (λ (q : Router × Option Target). q.0.pending ≡ r.pending)
      (not (s.route_id == t.route_id)) _ _ refl
      (disable-pending r t (lookup t.route_model r.states))

replace-pending :
    (r : Router) (expected : ℕ) (keys : ApiKey) (probe : String) (disabled : List (Option String))
    (o : Option RouteState)
    → (replace_on r expected keys probe disabled o).0.pending ≡ r.pending
unfolding replace_on replaced
replace-pending r expected keys probe disabled none = refl
replace-pending r expected keys probe disabled (some s) =
    if_elim (λ (q : Router × Result (Unit {0})). q.0.pending ≡ r.pending)
      (s.key_revision == expected) _ _ refl refl

delete-pending : (r : Router) (o : Option RouteState) → (delete_state r o).0.pending ≡ r.pending
unfolding delete_state
delete-pending r none = refl
delete-pending r (some s) =
    let P = λ (q : Router × Result (Unit {0})). q.0.pending ≡ r.pending in
    if_elim P (is_config s.source) _ _ refl
      (if_elim P (ltb 0 s.inflight_requests || ltb 0 s.active_streams) _ _ refl refl)

reserve-pending :
    (r : Router) (m o model op : String)
    → lookup model r.pending ≡ some op
    → lookup model (reserve_registration r m o).0.pending ≡ some op
unfolding reserve_registration
reserve-pending r m o model op h =
    ground (arith, string_eq.beq_iff m model, lookup-insert m model o r.pending)

publish-pending :
    (r : Router) (m o model op : String) (route : RouteConfig) (probe : String)
    (disabled : List (Option String)) (id : String)
    → ¬ ((m ≡ model) × (o ≡ op))
    → lookup model r.pending ≡ some op
    → lookup model (publish_registration r m o route probe disabled id).0.pending ≡ some op
unfolding publish_registration is_current
publish-pending r m o model op route probe disabled id other h = ground (
  arith,
  string_eq.beq_iff m model,
  option_beq_iff (lookup m r.pending) (some o),
  lookup-erase m model r.pending,
  other,
)

abort-pending :
    (r : Router) (m o model op : String)
    → ¬ ((m ≡ model) × (o ≡ op))
    → lookup model r.pending ≡ some op
    → lookup model (abort_registration r m o).pending ≡ some op
unfolding abort_registration is_current
abort-pending r m o model op other h = ground (
  arith,
  string_eq.beq_iff m model,
  option_beq_iff (lookup m r.pending) (some o),
  lookup-erase m model r.pending,
  other,
)

after-pending :
    (model op : String) (r : Router) (c : Call r)
    → ¬ Settles model op r c
    → lookup model r.pending ≡ some op
    → lookup model (after r c).pending ≡ some op
unfolding after acquire_target release_target disable_api_key retry_target replace_api_keys
    delete_route
after-pending model op r (acquires m is_stream choice lease_id new) other h =
    ap (lookup model) (acquire-pending r m is_stream lease_id (select_target r m is_stream choice))
    ∙ h
after-pending model op r (releases t) other h =
    ap (lookup model) (release-pending r t.lease_id (lookup t.lease_id r.leases)) ∙ h
after-pending model op r (disables t) other h =
    ap (lookup model) (disable-pending r t (lookup t.route_model r.states)) ∙ h
after-pending model op r (retries t attempted choice) other h =
    ap (lookup model) (retry-pending r t attempted choice (lookup t.route_model r.states)) ∙ h
after-pending model op r (reserves m o) other h = reserve-pending r m o model op h
after-pending model op r (publishes m o route probe disabled id new new') other h =
    publish-pending r m o model op route probe disabled id other h
after-pending model op r (aborts m o) other h = abort-pending r m o model op other h
after-pending model op r (replaces id expected keys probe disabled) other h =
    ap (lookup model) (replace-pending r expected keys probe disabled (state_with_id id r.states))
    ∙ h
after-pending model op r (deletes id) other h =
    ap (lookup model) (delete-pending r (state_with_id id r.states)) ∙ h

Unsettled-pending :
    (model op : String) (r q : Router)
    → Unsettled model op r q
    → lookup model r.pending ≡ some op
    → lookup model q.pending ≡ some op
Unsettled-pending model op r q still h = h
Unsettled-pending model op r q (then_calls before c other) h =
    after-pending model op _ c other (Unsettled-pending model op r _ before h)

reserve_held :
    (r : Router) (model op : String)
    → (reserve_registration r model op).1 ≡ ok tt
    → lookup model (reserve_registration r model op).0.pending ≡ some op
unfolding reserve_registration
reserve_held r model op h = ground (arith, lookup-insert model model op r.pending, ==-self model)

-- Once a registration has reserved its name, then after any calls that neither publish nor abort it:
-- no other registration can reserve the name, be published under it, or give it up; it can be
-- published under its own operation, and when it is aborted nothing is pending for the name.
pub reserve_excludes :
    (r q : Router) (model op op' : String)
    → (reserve_registration r model op).1 ≡ ok tt
    → Unsettled model op (reserve_registration r model op).0 q
    → op' ≢ op
    → ((reserve_registration q model op').1 ≢ ok tt)
      × ((reserve_registration q model op').0 ≡ q)
      × ((route : RouteConfig) (probe : String) (disabled : List (Option String)) (id : String)
          → (publish_registration q model op' route probe disabled id
              ≡ (q, err registration_cancelled))
            × ((publish_registration q model op route probe disabled id).1 ≡ ok tt))
      × (abort_registration q model op' ≡ q)
      × (lookup model (abort_registration q model op).pending ≡ none)
unfolding reserve_registration publish_registration abort_registration is_current
reserve_excludes r q model op op' h calls other =
    let held =
      Unsettled-pending model op (reserve_registration r model op).0 q calls
        (reserve_held r model op h) in
    let mine = option_beq_iff (lookup model q.pending) (some op) in
    let theirs = option_beq_iff (lookup model q.pending) (some op') in
    (
      ground (arith, held),
      ground (arith, held),
      λ route probe disabled id. (ground (arith, held, theirs, other), ground (arith, held, mine)),
      ground (arith, held, theirs, other),
      ground (arith, held, mine, lookup-erase model model q.pending, ==-self model),
    )
