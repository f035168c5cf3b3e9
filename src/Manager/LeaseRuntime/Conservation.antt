-- ===== src/Manager/LeaseRuntime/Conservation.antt =====
-- Every known key is a lease that is ready, with a client, or being refilled, and only one of them.
use safactory.Base.{
  Bool, List, Option, String, [], arith, contains, count_if, if◌then◌else◌, length, none, some,
  true, ℕ, ◌+◌, ◌==◌, ◌∷◌, ◌≡◌, is_it, take_out, contains-add, count_if-append, false,
  contains-count, contains-discard, count-take_out, length-take_out, if_elim, refl,
}
use safactory.Manager.Keys.{key_eq, Key}
use safactory.Manager.LeaseRuntime.{
  Runtime, AgentLease, Answer, acquire, add_ready_lease, begin_refill, fail_refill, finish_refill,
  key_of, leases, mark_initial_load_done, stop, pop_ready, is_exhausted, nothing_left, waits,
  replace, unless_failed,
}

-- The runtime state, the keys of the leases that clients hold, and of those being refilled.
pub record World : Type 0 where
  pub rt : Runtime
  pub held : List Key
  pub refilling : List Key

unfoldable pub is_lease : Key → AgentLease → Bool
unfolding key_of
is_lease k l = key_of l == k

-- How often a key stands for a lease.
unfoldable pub copies : Key → World → ℕ
unfolding is_lease
copies k w =
    count_if (is_lease k) w.rt.ready + count_if (is_it k) w.held + count_if (is_it k) w.refilling

pub record IsConserved (w : World) : Type 0 where
  pub once : (k : Key) → copies k w ≡ (if contains k w.rt.known then 1 else 0)
  pub leased : w.rt.leased ≡ length w.held
  pub refills : w.rt.refills_in_flight ≡ length w.refilling

abbrev pub handed : List Key → Answer → List Key
handed held (leases l) = key_of l ∷ held
handed held _ = held

abbrev pub key_option : Option AgentLease → Option Key
key_option none = none
key_option (some l) = some (key_of l)

-- What may happen to the runtime: the manager publishes a lease, a client asks for one, a client is
-- done with one that it holds, and its refill ends with a replacement, with none, or fails.
pub data Step : World → World → Type 0 where
  publishes :
      (w : World) (l : AgentLease)
      → Step w (record w { rt = (add_ready_lease w.rt (key_of l) l).0 })
  acquires :
      (w : World)
      → Step w (record w { rt = (acquire w.rt).0; held = handed w.held (acquire w.rt).1 })
  begins :
      (w : World) (k : Key)
      → contains k w.held ≡ true
      → Step w (record {
        rt = begin_refill w.rt k;
        held = take_out k w.held;
        refilling = k ∷ w.refilling;
      })
  finishes :
      (w : World) (k : Key) (new : Option AgentLease)
      → contains k w.refilling ≡ true
      → Step w (record w {
        rt = (finish_refill w.rt k (key_option new) new).0;
        refilling = take_out k w.refilling;
      })
  fails :
      (w : World) (k : Key)
      → contains k w.refilling ≡ true
      → Step w (record w { rt = fail_refill w.rt k; refilling = take_out k w.refilling })
  loads : (w : World) (e : Option String) → Step w (record w { rt = mark_initial_load_done w.rt e })
  stops : (w : World) → Step w (record w { rt = stop w.rt })

publish-IsConserved :
    (w : World) (l : AgentLease)
    → IsConserved w
    → IsConserved (record w { rt = (add_ready_lease w.rt (key_of l) l).0 })
unfolding add_ready_lease copies
publish-IsConserved w l c = record {
  once = λ k. ground (
    arith,
    c.once k,
    count_if-append (is_lease k) w.rt.ready (l ∷ []),
    contains-add (key_of l) k w.rt.known,
    key_eq.beq_iff (key_of l) k,
  );
  leased = ground (arith, c.leased);
  refills = ground (arith, c.refills);
}

pub pop-IsConserved :
    (w : World) (ls : List AgentLease)
    → w.rt.ready ≡ ls
    → IsConserved w
    → IsConserved
        (record w { rt = (pop_ready w.rt ls).0; held = handed w.held (pop_ready w.rt ls).1 })
unfolding pop_ready copies
pop-IsConserved w [] e c = unchanged (is_exhausted w.rt)
  where
    unchanged :
        (b : Bool)
        → IsConserved (record w { held = handed w.held (if b then nothing_left else waits) })
    unchanged false = record { once = c.once; leased = c.leased; refills = c.refills }
    unchanged true = record { once = c.once; leased = c.leased; refills = c.refills }
pop-IsConserved w (l ∷ ls) e c = record {
  once = λ k. ground (arith, c.once k, e);
  leased = ground (arith, c.leased);
  refills = c.refills;
}

pub acquire-IsConserved :
    (w : World)
    → IsConserved w
    → IsConserved (record w { rt = (acquire w.rt).0; held = handed w.held (acquire w.rt).1 })
unfolding acquire unless_failed
acquire-IsConserved w c =
    if_elim After w.rt.stopped _ _
      (record { once = c.once; leased = c.leased; refills = c.refills }) (loaded w.rt.initial_error)
  where
    After : Runtime × Answer → Type 0
    After q = IsConserved (record w { rt = q.0; held = handed w.held q.1 })

    loaded : (o : Option String) → After (unless_failed w.rt o)
    loaded none = pop-IsConserved w w.rt.ready refl c
    loaded (some e) = record { once = c.once; leased = c.leased; refills = c.refills }

begin-IsConserved :
    (w : World) (k : Key)
    → contains k w.held ≡ true
    → IsConserved w
    → IsConserved
        (record { rt = begin_refill w.rt k; held = take_out k w.held; refilling = k ∷ w.refilling })
unfolding begin_refill copies
begin-IsConserved w k h c = record {
  once = λ j. ground (arith, c.once j, count-take_out k j w.held);
  leased = ground (arith, c.leased, length-take_out k w.held);
  refills = ground (arith, c.refills);
}

fail-IsConserved :
    (w : World) (k : Key)
    → contains k w.refilling ≡ true
    → IsConserved w
    → IsConserved (record w { rt = fail_refill w.rt k; refilling = take_out k w.refilling })
unfolding fail_refill copies
fail-IsConserved w k h c = record {
  once = λ j. ground (
    arith,
    c.once j,
    c.once k,
    contains-count k w.refilling,
    count-take_out k j w.refilling,
    contains-discard k j w.rt.known,
    key_eq.beq_iff k j,
  );
  leased = ground (arith, c.leased);
  refills = ground (arith, c.refills, length-take_out k w.refilling);
}

replace-IsConserved :
    (w : World) (new : Option AgentLease)
    → IsConserved w
    → IsConserved (record w { rt = (replace w.rt (key_option new) new).0 })
unfolding replace copies
replace-IsConserved w none c = record { once = c.once; leased = c.leased; refills = c.refills }
replace-IsConserved w (some l) c = record {
  once = λ k. ground (
    arith,
    c.once k,
    count_if-append (is_lease k) w.rt.ready (l ∷ []),
    contains-add (key_of l) k w.rt.known,
    key_eq.beq_iff (key_of l) k,
  );
  leased = ground (arith, c.leased);
  refills = ground (arith, c.refills);
}

-- Every step keeps each known key in one place: ready, with a client, or being refilled. A key is
-- thus never handed out twice at a time, and no lease is lost from the counts.
pub Step-IsConserved : {w w' : World} → Step w w' → IsConserved w → IsConserved w'
unfolding copies
Step-IsConserved (publishes w l) c = publish-IsConserved w l c
Step-IsConserved (acquires w) c = acquire-IsConserved w c
Step-IsConserved (begins w k h) c = begin-IsConserved w k h c
Step-IsConserved (finishes w k new h) c =
    unfold finish_refill in
    replace-IsConserved (record w { rt = fail_refill w.rt k; refilling = take_out k w.refilling })
      new (fail-IsConserved w k h c)
Step-IsConserved (fails w k h) c = fail-IsConserved w k h c
Step-IsConserved (loads w e) c =
    unfold mark_initial_load_done in
    record { once = c.once; leased = c.leased; refills = c.refills }
Step-IsConserved (stops w) c =
    unfold stop in record { once = c.once; leased = c.leased; refills = c.refills }
