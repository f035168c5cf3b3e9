-- ===== src/Gateway/Router/Registration/Exclusive.antt =====
-- A name belongs to one route or to one registration, and routes and states stay in step.
use safactory.Base.{
  option_eq, string_eq, List, Option, String, arith, is_some, lookup, lookup-erase, lookup-insert,
  none, some, true, ◌≡◌, ==-self, ◌↔◌, option_beq_iff,
}
use safactory.Gateway.Router.{Router, RouteConfig, RouteState, ok}
use safactory.Gateway.Router.Registration.{
  reserve_registration, abort_registration, delete_route, delete_state, new_state,
  publish_registration, state_with_id,
}

pub record IsExclusive (r : Router) : Type 0 where
  -- A name that is being registered has no route yet.
  pub apart : (m : String) → is_some (lookup m r.pending) ≡ true → lookup m r.routes ≡ none
  -- A route has a state, and a state has a route.
  pub paired : (m : String) → is_some (lookup m r.routes) ≡ is_some (lookup m r.states)
  -- A state stands under its own model.
  pub named : (m : String) (s : RouteState) → lookup m r.states ≡ some s → s.route_model ≡ m

pub reserve-IsExclusive :
    (r : Router) (model operation_id : String)
    → IsExclusive r
    → IsExclusive (reserve_registration r model operation_id).0
unfolding reserve_registration
reserve-IsExclusive r model op x = record {
  apart = λ m h.
      ground (arith, x.apart m, string_eq.beq_iff model m, lookup-insert model m op r.pending);
  paired = λ m. ground (arith, x.paired m);
  named = λ m s h. ground (arith, x.named m s);
}

pub publish-IsExclusive :
    (r : Router) (model op : String) (route : RouteConfig) (probe : String)
    (disabled : List (Option String)) (id : String)
    → IsExclusive r
    → IsExclusive (publish_registration r model op route probe disabled id).0
unfolding publish_registration
publish-IsExclusive r model op route probe disabled id x = record {
  apart = λ m h. ground (
    arith,
    x.apart m,
    string_eq.beq_iff model m,
    lookup-erase model m r.pending,
    lookup-insert model m route r.routes,
  );
  paired = λ m. ground (
    arith,
    x.paired m,
    lookup-insert model m route r.routes,
    lookup-insert model m (new_state model id probe disabled) r.states,
  );
  named = λ m s h. ground (
    arith,
    x.named m s,
    string_eq.beq_iff model m,
    lookup-insert model m (new_state model id probe disabled) r.states,
  );
}

pub abort-IsExclusive :
    (r : Router) (model op : String) → IsExclusive r → IsExclusive (abort_registration r model op)
unfolding abort_registration
abort-IsExclusive r model op x = record {
  apart =
      λ m h. ground (arith, x.apart m, string_eq.beq_iff model m, lookup-erase model m r.pending);
  paired = λ m. ground (arith, x.paired m);
  named = λ m s h. ground (arith, x.named m s);
}

delete_state-IsExclusive :
    (r : Router) (o : Option RouteState) → IsExclusive r → IsExclusive (delete_state r o).0
unfolding delete_state
delete_state-IsExclusive r none x = x
delete_state-IsExclusive r (some t) x = record {
  apart = λ m h.
      ground (
        arith,
        x.apart m,
        string_eq.beq_iff t.route_model m,
        lookup-erase t.route_model m r.routes,
      );
  paired = λ m. ground (
    arith,
    x.paired m,
    lookup-erase t.route_model m r.routes,
    lookup-erase t.route_model m r.states,
  );
  named = λ m s h. ground (arith, x.named m s, lookup-erase t.route_model m r.states);
}

pub delete-IsExclusive :
    (r : Router) (id : String) → IsExclusive r → IsExclusive (delete_route r id).0
unfolding delete_route
delete-IsExclusive r id x = delete_state-IsExclusive r (state_with_id id r.states) x

-- A registration is published exactly while it is the current one of its name, and it never takes
-- the place of a route: the name had none, and has this one afterwards.
pub publish_lem :
    (r : Router) (model op : String) (route : RouteConfig) (probe : String)
    (disabled : List (Option String)) (id : String)
    → IsExclusive r
    → let q = publish_registration r model op route probe disabled id in
      ((q.1 ≡ ok tt) ↔ (lookup model r.pending ≡ some op))
      × ((q.1 ≡ ok tt)
          → (lookup model r.routes ≡ none)
            × (lookup model q.0.routes ≡ some route)
            × (lookup model q.0.pending ≡ none))
unfolding publish_registration
publish_lem r model op route probe disabled id x = (
  ground (arith, option_beq_iff (lookup model r.pending) (some op)),
  λ h. (
    ground (arith, x.apart model, option_beq_iff (lookup model r.pending) (some op)),
    ground (arith, lookup-insert model model route r.routes, ==-self model),
    ground (arith, lookup-erase model model r.pending, ==-self model),
  ),
)
