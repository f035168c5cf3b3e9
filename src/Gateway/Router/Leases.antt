-- ===== src/Gateway/Router/Leases.antt =====
-- The counters of a route against the leases that requests hold on it.
use safactory.Base.{
  string_eq, Bool, Bool-cases, Dict, IsUnique, Option, String, count_if, inl, inr, insert-IsUnique,
  leb, lookup, none, some, ◌&&◌, ◌==◌, ◌≡◌, ==-self, arith, count_if-insert_new, false, if_elim,
  insert, refl, ℕ, every-insert, count_if-erase, erase, erase-IsUnique, true,
}
use safactory.Gateway.Router.{
  Router, Lease, RouteState, Target, reserve, Result, acquire_target, entered, err, ok,
  reserve_selected, select_target, give_back, left, release_lease, release_target,
}

-- The lease is on this model, in this life of its route.
abbrev pub on : String → String → String × Lease → Bool
on m id (k, l) = (l.model == m) && (l.route_id == id)

abbrev pub streams_on : String → String → String × Lease → Bool
streams_on m id (k, l) = ((l.model == m) && (l.route_id == id)) && l.is_stream

-- The counters of one model's state are the leases that it has out.
pub record IsCountedAt (leases : Dict String Lease) (m : String) (s : RouteState) : Type 0 where
  pub inflight : s.inflight_requests ≡ count_if (on m s.route_id) leases
  pub streams : s.active_streams ≡ count_if (streams_on m s.route_id) leases

pub record IsCounted (r : Router) : Type 0 where
  pub unique : IsUnique r.leases
  pub at : (m : String) (s : RouteState) → lookup m r.states ≡ some s → IsCountedAt r.leases m s

-- A new lease, and a state for it that has counted it in.
enter-IsCountedAt :
    (leases : Dict String Lease) (model lease_id : String) (is_stream : Bool) (s : RouteState)
    → lookup lease_id leases ≡ none
    → IsCountedAt leases model s
    → IsCountedAt
        (insert lease_id
          (record { model = model; route_id = s.route_id; is_stream = is_stream })
          leases)
        model
        (entered s is_stream)
unfolding entered
enter-IsCountedAt leases model lease_id is_stream s new c =
    let l : Lease = record { model = model; route_id = s.route_id; is_stream = is_stream } in
    record {
      inflight = ground (
        arith,
        c.inflight,
        ==-self model,
        ==-self s.route_id,
        count_if-insert_new (on model s.route_id) lease_id l leases,
      );
      streams = ground (
        arith,
        c.streams,
        ==-self model,
        ==-self s.route_id,
        count_if-insert_new (streams_on model s.route_id) lease_id l leases,
      );
    }

-- A new lease on another model is not counted here.
other-IsCountedAt :
    (leases : Dict String Lease) (m lease_id : String) (l : Lease) (s : RouteState)
    → lookup lease_id leases ≡ none
    → (l.model == m) ≡ false
    → IsCountedAt leases m s
    → IsCountedAt (insert lease_id l leases) m s
other-IsCountedAt leases m lease_id l s new other c = record {
  inflight = ground (arith, c.inflight, count_if-insert_new (on m s.route_id) lease_id l leases);
  streams =
      ground (arith, c.streams, count_if-insert_new (streams_on m s.route_id) lease_id l leases);
}

pub reserve-IsCounted :
    (r : Router) (model : String) (is_stream : Bool) (lease_id : String) (target : Target)
    (o : Option RouteState)
    → lookup model r.states ≡ o
    → lookup lease_id r.leases ≡ none
    → IsCounted r
    → IsCounted (reserve r model is_stream lease_id target o).0
unfolding reserve
reserve-IsCounted r model is_stream lease_id target none e new c = c
reserve-IsCounted r model is_stream lease_id target (some s) e new c =
    if_elim (λ (q : Router × Result Target). IsCounted q.0)
      (leb target.max_concurrency s.inflight_requests) _ _ c
      (record { unique = insert-IsUnique lease_id l r.leases c.unique; at = counted })
  where
    l : Lease
    l = record { model = model; route_id = s.route_id; is_stream = is_stream }

    counted :
        (m : String) (t : RouteState)
        → lookup m (insert model (entered s is_stream) r.states) ≡ some t
        → IsCountedAt (insert lease_id l r.leases) m t
    counted =
        every-insert (IsCountedAt (insert lease_id l r.leases)) model r.states (entered s is_stream)
          (enter-IsCountedAt r.leases model lease_id is_stream s new (c.at model s e))
          (λ m t other found. other-IsCountedAt r.leases m lease_id l t new other (c.at m t found))

-- A request that takes a lease keeps the counters exact, on every route and in every outcome.
pub acquire-IsCounted :
    (r : Router) (model : String) (is_stream : Bool) (choice : ℕ) (lease_id : String)
    → lookup lease_id r.leases ≡ none
    → IsCounted r
    → IsCounted (acquire_target r model is_stream choice lease_id).0
unfolding acquire_target reserve_selected
acquire-IsCounted r model is_stream choice lease_id new c =
    selected (select_target r model is_stream choice)
  where
    selected : (t : Result Target) → IsCounted (reserve_selected r model is_stream lease_id t).0
    selected (err e) = c
    selected (ok target) = reserve-IsCounted r model is_stream lease_id target _ refl new c

-- The state that a returned lease was counted in.
leave-IsCountedAt :
    (leases : Dict String Lease) (lease_id : String) (l : Lease) (s : RouteState)
    → IsUnique leases
    → lookup lease_id leases ≡ some l
    → (s.route_id == l.route_id) ≡ true
    → IsCountedAt leases l.model s
    → IsCountedAt (erase lease_id leases) l.model (left s l.is_stream)
unfolding left
leave-IsCountedAt leases lease_id l s u found same c = record {
  inflight = ground (
    arith,
    c.inflight,
    string_eq.beq_iff s.route_id l.route_id,
    ==-self l.model,
    ==-self l.route_id,
    count_if-erase (on l.model s.route_id) lease_id l leases u,
  );
  streams = ground (
    arith,
    c.streams,
    string_eq.beq_iff s.route_id l.route_id,
    ==-self l.model,
    ==-self l.route_id,
    count_if-erase (streams_on l.model s.route_id) lease_id l leases u,
  );
}

-- A state that the returned lease was not counted in.
stay-IsCountedAt :
    (leases : Dict String Lease) (lease_id : String) (l : Lease) (m : String) (s : RouteState)
    → IsUnique leases
    → lookup lease_id leases ≡ some l
    → ((l.model == m) && (l.route_id == s.route_id)) ≡ false
    → IsCountedAt leases m s
    → IsCountedAt (erase lease_id leases) m s
stay-IsCountedAt leases lease_id l m s u found away c = record {
  inflight = ground (arith, c.inflight, count_if-erase (on m s.route_id) lease_id l leases u);
  streams = ground (arith, c.streams, count_if-erase (streams_on m s.route_id) lease_id l leases u);
}

module _ (r : Router) (lease_id : String) (l : Lease) (c : IsCounted r)
    (held : lookup lease_id r.leases ≡ some l) where
  elsewhere :
      (m : String) (t : RouteState)
      → (l.model == m) ≡ false
      → lookup m r.states ≡ some t
      → IsCountedAt (erase lease_id r.leases) m t
  elsewhere m t other found =
      stay-IsCountedAt r.leases lease_id l m t c.unique held (ground arith) (c.at m t found)

  pub give_back-IsCounted :
      (o : Option RouteState)
      → lookup l.model r.states ≡ o
      → IsCounted (give_back (record r { leases = erase lease_id r.leases }) l o)
  unfolding give_back
  give_back-IsCounted none e = record {
    unique = erase-IsUnique lease_id r.leases c.unique;
    at = λ m t found. elsewhere m t (absent m t found) found;
  }
    where
      absent : (m : String) (t : RouteState) → lookup m r.states ≡ some t → (l.model == m) ≡ false
      absent m t found = ground (arith, string_eq.beq_iff l.model m)
  give_back-IsCounted (some s) e = elim (Bool-cases (s.route_id == l.route_id)) [
    | inl same ↦
        rw (same, give_back)
          (record {
            unique = erase-IsUnique lease_id r.leases c.unique;
            at =
                every-insert (IsCountedAt (erase lease_id r.leases)) l.model r.states
                  (left s l.is_stream)
                  (leave-IsCountedAt r.leases lease_id l s c.unique held same (c.at l.model s e))
                  elsewhere;
          })
    | inr stale ↦
        rw (stale, give_back)
          (record {
            unique = erase-IsUnique lease_id r.leases c.unique;
            at = λ m t found.
                stay-IsCountedAt r.leases lease_id l m t c.unique held
                  (ground (
                    arith,
                    string_eq.beq_iff l.model m,
                    string_eq.beq_iff s.route_id l.route_id,
                    string_eq.beq_iff l.route_id t.route_id,
                  ))
                  (c.at m t found);
          })
  ]

-- A lease that is given back, also one of a route that has gone or was registered anew since, and
-- also one that was given back before, keeps the counters exact.
pub release-IsCounted :
    (r : Router) (target : Target) → IsCounted r → IsCounted (release_target r target)
unfolding release_target release_lease
release-IsCounted r target c = returned (lookup target.lease_id r.leases) refl
  where
    returned :
        (o : Option Lease)
        → lookup target.lease_id r.leases ≡ o
        → IsCounted (release_lease r target.lease_id o)
    returned none e = c
    returned (some l) e = give_back-IsCounted r target.lease_id l c e _ refl
