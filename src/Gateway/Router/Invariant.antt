-- ===== src/Gateway/Router/Invariant.antt =====
-- What every method of the router keeps: counted leases, exclusive names, one state for a model.
pub mod Leasing
pub mod Keying
pub mod Naming
use safactory.Base.{
  string_eq, option_eq, nat_eq, Dict, IsUnique, String, arith, every-insert, insert,
  insert-IsUnique, lookup, lookup-insert, some, subst, sym, ◌∙◌, ◌≡◌,
}
use safactory.Gateway.Router.{Router, Lease, RouteConfig, RouteState}
use safactory.Gateway.Router.Leases.{IsCounted, IsCountedAt}
use safactory.Gateway.Router.Registration.{state_with_id, state_with_id_lem}
use safactory.Gateway.Router.Registration.Exclusive.{IsExclusive}

pub record IsSound (r : Router) : Type 0 where
  pub counted : IsCounted r
  pub exclusive : IsExclusive r
  pub unique_states : IsUnique r.states

-- A state that differs from the one that it replaces in its keys alone.
pub rekeyed-IsCounted :
    (r : Router) (s s' : RouteState) (routes : Dict String RouteConfig) (m : String)
    → lookup m r.states ≡ some s
    → s'.inflight_requests ≡ s.inflight_requests
    → s'.active_streams ≡ s.active_streams
    → s'.route_id ≡ s.route_id
    → IsCounted r
    → IsCounted (record r { routes = routes; states = insert m s' r.states })
rekeyed-IsCounted r s s' routes m found i a id c = record {
  unique = c.unique;
  at =
      every-insert (IsCountedAt r.leases) m r.states s'
        (record {
          inflight = rw (id, i) (c.at m s found).inflight;
          streams = rw (id, a) (c.at m s found).streams;
        })
        (λ j w other e. c.at j w e);
}

-- A state written back under its model, with the keys and the counters that it has then.
module _ (r : Router) (h : IsSound r) (m : String) (s s' : RouteState)
    (found : lookup m r.states ≡ some s) (model : s'.route_model ≡ s.route_model) where
  pub rewritten-IsExclusive :
      (leases : Dict String Lease)
      → IsExclusive (record r { states = insert m s' r.states; leases = leases })
  rewritten-IsExclusive leases = record {
    apart = h.exclusive.apart;
    paired = λ j.
        ground (arith, h.exclusive.paired j, string_eq.beq_iff m j, lookup-insert m j s' r.states);
    named =
        every-insert (λ j (w : RouteState). w.route_model ≡ j) m r.states s'
          (model ∙ h.exclusive.named m s found) (λ j w other e. h.exclusive.named j w e);
  }

  pub rewritten-IsSound :
      (leases : Dict String Lease)
      → IsCounted (record r { states = insert m s' r.states; leases = leases })
      → IsSound (record r { states = insert m s' r.states; leases = leases })
  rewritten-IsSound leases c = record {
    counted = c;
    exclusive = rewritten-IsExclusive leases;
    unique_states = insert-IsUnique m s' r.states h.unique_states;
  }

-- The state that is found by its id stands under its own model.
pub named_lookup :
    (r : Router) (id : String) (s : RouteState)
    → IsSound r
    → state_with_id id r.states ≡ some s
    → lookup s.route_model r.states ≡ some s
named_lookup r id s h found =
    let (m, at_m, same) = state_with_id_lem id r.states s h.unique_states found in
    subst (λ k. lookup k r.states ≡ some s) (sym (h.exclusive.named m s at_m)) at_m
