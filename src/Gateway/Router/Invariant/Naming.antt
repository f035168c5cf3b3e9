-- ===== src/Gateway/Router/Invariant/Naming.antt =====
-- Registering and deleting routes keep the router sound.
use safactory.Base.{
  false, string_eq, option_eq, nat_eq, Dict, IsUnique, List, Option, String, arith, contains,
  count_if, erase, lookup-erase, ==-self, subst, erase-IsUnique, every-erase, every-insert, if_elim,
  insert, insert-IsUnique, is_some, lookup, ltb, none, some, sym, ◌||◌, ◌≡◌,
}
use safactory.Gateway.Router.{Router, Result, RouteConfig, RouteState, dynamic, ok}
use safactory.Gateway.Router.Leases.{IsCounted, IsCountedAt, on, streams_on}
use safactory.Gateway.Router.Registration.{
  state_with_id, abort_registration, delete_route, delete_state, is_config, is_current, new_state,
  publish_registration, quota_reached, reserve_registration, state_with_id_lem,
}
use safactory.Gateway.Router.Registration.Exclusive.{
  abort-IsExclusive, delete-IsExclusive, publish-IsExclusive, reserve-IsExclusive,
}
use safactory.Gateway.Router.Invariant.{IsSound, named_lookup}

-- What the leases and the states alone give.
record IsKept (r : Router) : Type 0 where
  counted : IsCounted r
  unique_states : IsUnique r.states

kept : (r : Router) → IsSound r → IsKept r
kept r h = record { counted = h.counted; unique_states = h.unique_states }

with_pending :
    (r : Router) (pending : Dict String String)
    → IsSound r
    → IsKept (record r { pending = pending })
with_pending r pending h = record {
  counted = record { unique = h.counted.unique; at = h.counted.at };
  unique_states = h.unique_states;
}

reserve-IsKept :
    (r : Router) (model op : String) → IsSound r → IsKept (reserve_registration r model op).0
unfolding reserve_registration
reserve-IsKept r model op h =
    let P = λ (q : Router × Result (Unit {0})). IsKept q.0 in
    if_elim P (contains model r.static_models) _ _ (kept r h) (
      if_elim P (is_some (lookup model r.routes)) _ _ (kept r h) (
        if_elim P (is_some (lookup model r.pending)) _ _ (kept r h) (
          if_elim P (quota_reached r) _ _ (kept r h)
            (with_pending r (insert model op r.pending) h))))

pub reserve_registration-IsSound :
    (r : Router) (model op : String) → IsSound r → IsSound (reserve_registration r model op).0
reserve_registration-IsSound r model op h =
    let k = reserve-IsKept r model op h in
    record {
      counted = k.counted;
      exclusive = reserve-IsExclusive r model op h.exclusive;
      unique_states = k.unique_states;
    }

abort-IsKept : (r : Router) (model op : String) → IsSound r → IsKept (abort_registration r model op)
unfolding abort_registration
abort-IsKept r model op h =
    if_elim IsKept (is_current r model op) _ _ (with_pending r (erase model r.pending) h) (kept r h)

pub abort_registration-IsSound :
    (r : Router) (model op : String) → IsSound r → IsSound (abort_registration r model op)
abort_registration-IsSound r model op h =
    let k = abort-IsKept r model op h in
    record {
      counted = k.counted;
      exclusive = abort-IsExclusive r model op h.exclusive;
      unique_states = k.unique_states;
    }

publish-IsKept :
    (r : Router) (model op : String) (route : RouteConfig) (probe : String)
    (disabled : List (Option String)) (id : String)
    → ((m : String) → count_if (on m id) r.leases ≡ 0)
    → ((m : String) → count_if (streams_on m id) r.leases ≡ 0)
    → IsSound r
    → IsKept (publish_registration r model op route probe disabled id).0
unfolding publish_registration
publish-IsKept r model op route probe disabled id new new_streams h =
    let s = new_state model id probe disabled in
    if_elim (λ (q : Router × Result (Unit {0})). IsKept q.0) (is_current r model op) _ _
      (record {
        counted = record {
          unique = h.counted.unique;
          at =
              every-insert (IsCountedAt r.leases) model r.states s
                (unfold new_state in
                  record { inflight = sym (new model); streams = sym (new_streams model) })
                (λ j w other e. h.counted.at j w e);
        };
        unique_states = insert-IsUnique model s r.states h.unique_states;
      })
      (kept r h)

pub publish_registration-IsSound :
    (r : Router) (model op : String) (route : RouteConfig) (probe : String)
    (disabled : List (Option String)) (id : String)
    → ((m : String) → count_if (on m id) r.leases ≡ 0)
    → ((m : String) → count_if (streams_on m id) r.leases ≡ 0)
    → IsSound r
    → IsSound (publish_registration r model op route probe disabled id).0
publish_registration-IsSound r model op route probe disabled id new new_streams h =
    let k = publish-IsKept r model op route probe disabled id new new_streams h in
    record {
      counted = k.counted;
      exclusive = publish-IsExclusive r model op route probe disabled id h.exclusive;
      unique_states = k.unique_states;
    }

delete_state-IsKept : (r : Router) (o : Option RouteState) → IsSound r → IsKept (delete_state r o).0
unfolding delete_state
delete_state-IsKept r none h = kept r h
delete_state-IsKept r (some s) h =
    let P = λ (q : Router × Result (Unit {0})). IsKept q.0 in
    if_elim P (is_config s.source) _ _ (kept r h) (
      if_elim P (ltb 0 s.inflight_requests || ltb 0 s.active_streams) _ _ (kept r h) (record {
        counted = record {
          unique = h.counted.unique;
          at =
              every-erase (IsCountedAt r.leases) s.route_model r.states
                (λ j w other e. h.counted.at j w e);
        };
        unique_states = erase-IsUnique s.route_model r.states h.unique_states;
      }))

pub delete_route-IsSound : (r : Router) (id : String) → IsSound r → IsSound (delete_route r id).0
unfolding delete_route
delete_route-IsSound r id h =
    let k = delete_state-IsKept r (state_with_id id r.states) h in
    record {
      counted = k.counted;
      exclusive = delete-IsExclusive r id h.exclusive;
      unique_states = k.unique_states;
    }

-- A name that was not static before can be reserved afterwards, unless the quota is reached.
abbrev pub IsReservable : Router → Router → String → Type 0
IsReservable before after model =
    (op : String)
    → contains model before.static_models ≡ false
    → quota_reached after ≡ false
    → (reserve_registration after model op).1 ≡ ok tt

-- The answer tells of a deletion.
deletable :
    (r : Router) (s : RouteState)
    → lookup s.route_model r.states ≡ some s
    → IsSound r
    → (delete_state r (some s)).1 ≡ ok tt
    → (s.source ≡ dynamic)
      × (count_if (on s.route_model s.route_id) r.leases ≡ 0)
      × (lookup s.route_model (delete_state r (some s)).0.routes ≡ none)
      × (lookup s.route_model (delete_state r (some s)).0.states ≡ none)
      × IsReservable r (delete_state r (some s)).0 s.route_model
unfolding delete_state is_config reserve_registration
deletable r s found h done = (
  ground arith,
  ground (arith, (h.counted.at s.route_model s found).inflight),
  ground (arith, lookup-erase s.route_model s.route_model r.routes, ==-self s.route_model),
  ground (arith, lookup-erase s.route_model s.route_model r.states, ==-self s.route_model),
  λ op named room. ground (
    arith,
    lookup-erase s.route_model s.route_model r.routes,
    ==-self s.route_model,
    h.exclusive.apart s.route_model,
    h.exclusive.paired s.route_model,
  ),
)

-- A route is deleted only if it was registered dynamically and no request holds a lease on it. Its
-- name has no route and no state afterwards, and where it is not the name of a static model and the
-- quota is not reached, it can be reserved for a new registration.
pub delete_route_lem :
    (r : Router) (id : String) (s : RouteState)
    → IsSound r
    → state_with_id id r.states ≡ some s
    → (delete_route r id).1 ≡ ok tt
    → (s.source ≡ dynamic)
      × (count_if (on s.route_model id) r.leases ≡ 0)
      × (lookup s.route_model (delete_route r id).0.routes ≡ none)
      × (lookup s.route_model (delete_route r id).0.states ≡ none)
      × IsReservable r (delete_route r id).0 s.route_model
unfolding delete_route
delete_route_lem r id s h found done =
    let (m, at_m, same) = state_with_id_lem id r.states s h.unique_states found in
    subst
      (λ (i : String).
        (s.source ≡ dynamic)
        × (count_if (on s.route_model i) r.leases ≡ 0)
        × (lookup s.route_model (delete_state r (state_with_id id r.states)).0.routes ≡ none)
        × (lookup s.route_model (delete_state r (state_with_id id r.states)).0.states ≡ none)
        × IsReservable r (delete_state r (state_with_id id r.states)).0 s.route_model)
      same
      (rw (found) (
        deletable r s (named_lookup r id s h found) h
          (subst (λ o. (delete_state r o).1 ≡ ok tt) found done)))
