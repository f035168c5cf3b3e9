-- ===== src/Gateway/Router/Invariant/Leasing.antt =====
-- Taking a lease and giving it back keep the router sound.
use safactory.Base.{
  string_eq, option_eq, nat_eq, Bool, Bool-cases, Option, String, erase, inl, inr, leb, lookup,
  none, refl, some, ℕ, ◌==◌, ◌≡◌,
}
use safactory.Gateway.Router.{
  Router, Lease, Result, RouteState, Target, acquire_target, entered, err, give_back, left, ok,
  release_lease, release_target, reserve, reserve_selected, select_target,
}
use safactory.Gateway.Router.Leases.{give_back-IsCounted, reserve-IsCounted}
use safactory.Gateway.Router.Invariant.{IsSound, rewritten-IsSound}

-- Taking a lease.
reserve-IsSound :
    (r : Router) (model : String) (is_stream : Bool) (lease_id : String) (t : Target)
    (o : Option RouteState)
    → lookup model r.states ≡ o
    → lookup lease_id r.leases ≡ none
    → IsSound r
    → IsSound (reserve r model is_stream lease_id t o).0
unfolding reserve
reserve-IsSound r model is_stream lease_id t none e new h = h
reserve-IsSound r model is_stream lease_id t (some s) e new h =
    elim (Bool-cases (leb t.max_concurrency s.inflight_requests)) [
      | inl full ↦ rw (full, reserve) h
      | inr room ↦
          let c = reserve-IsCounted r model is_stream lease_id t (some s) e new h.counted in
          rw (room, reserve)
            (rewritten-IsSound r h model s (entered s is_stream) e (unfold entered in refl) _
              (rw (room, reserve) at c))
    ]

pub acquire-IsSound :
    (r : Router) (model : String) (is_stream : Bool) (choice : ℕ) (lease_id : String)
    → lookup lease_id r.leases ≡ none
    → IsSound r
    → IsSound (acquire_target r model is_stream choice lease_id).0
unfolding acquire_target reserve_selected
acquire-IsSound r model is_stream choice lease_id new h =
    selected (select_target r model is_stream choice)
  where
    selected : (d : Result Target) → IsSound (reserve_selected r model is_stream lease_id d).0
    selected (err e) = h
    selected (ok t) =
        reserve-IsSound r model is_stream lease_id t (lookup model r.states) refl new h

-- Giving a lease back.
give_back-IsSound :
    (r : Router) (lease_id : String) (l : Lease) (o : Option RouteState)
    → lookup lease_id r.leases ≡ some l
    → lookup l.model r.states ≡ o
    → IsSound r
    → IsSound (give_back (record r { leases = erase lease_id r.leases }) l o)
unfolding give_back
give_back-IsSound r lease_id l none held e h = record {
  counted = give_back-IsCounted r lease_id l h.counted held none e;
  exclusive = record {
    apart = h.exclusive.apart;
    paired = h.exclusive.paired;
    named = h.exclusive.named;
  };
  unique_states = h.unique_states;
}
give_back-IsSound r lease_id l (some s) held e h =
    let c = give_back-IsCounted r lease_id l h.counted held (some s) e in
    elim (Bool-cases (s.route_id == l.route_id)) [
      | inl same ↦
          rw (same, give_back)
            (rewritten-IsSound r h l.model s (left s l.is_stream) e (unfold left in refl) _
              (rw (same, give_back) at c))
      | inr stale ↦
          rw (stale, give_back)
            (record {
              counted = rw (stale, give_back) at c;
              exclusive = record {
                apart = h.exclusive.apart;
                paired = h.exclusive.paired;
                named = h.exclusive.named;
              };
              unique_states = h.unique_states;
            })
    ]

pub release-IsSound : (r : Router) (t : Target) → IsSound r → IsSound (release_target r t)
unfolding release_target release_lease
release-IsSound r t h = returned (lookup t.lease_id r.leases) refl
  where
    returned :
        (o : Option Lease) → lookup t.lease_id r.leases ≡ o → IsSound (release_lease r t.lease_id o)
    returned none e = h
    returned (some l) e = give_back-IsSound r t.lease_id l (lookup l.model r.states) e refl h
