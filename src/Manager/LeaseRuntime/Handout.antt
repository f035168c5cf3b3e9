-- ===== src/Manager/LeaseRuntime/Handout.antt =====
-- What `acquire` answers in a world whose leases are accounted for.
use safactory.Base.{
  arith, List, [], contains, false, refl, true, ◌∷◌, ◌≡◌, ==-self, Option, String, contains-count,
  nat_eq, none, some,
}
use safactory.Manager.Keys.{key_eq, Key}
use safactory.Manager.LeaseRuntime.{
  acquire, AgentLease, Runtime, init, key_of, leases, nothing_left, pop_ready, unless_failed,
  is_empty, is_exhausted,
}
use safactory.Manager.LeaseRuntime.Conservation.{
  World, IsConserved, Step, Step-IsConserved, copies, is_lease,
}

-- Worlds that the start state leads to.
pub data Reach : World → Type 0 where
  starts : Reach (record { rt = init; held = []; refilling = [] })
  steps : {w w' : World} → Reach w → Step w w' → Reach w'

-- Every world that is reached keeps each known key in exactly one place, and its two counters are
-- the leases that clients hold and the refills under way.
pub Reach-IsConserved : {w : World} → Reach w → IsConserved w
unfolding copies contains
Reach-IsConserved starts = record { once = λ k. refl; leased = refl; refills = refl }
Reach-IsConserved (steps r s) = Step-IsConserved s (Reach-IsConserved r)

-- The answers of one pass, read back.
module _ (r : Runtime) where
  pop_leases :
      (ls : List AgentLease) (l : AgentLease)
      → (pop_ready r ls).1 ≡ leases l
      → ls ≡ l ∷ (pop_ready r ls).0.ready
  unfolding pop_ready
  pop_leases [] l h = ground arith
  pop_leases (k ∷ ls) l h = ground arith

  unless_leases :
      (o : Option String) (l : AgentLease)
      → (unless_failed r o).1 ≡ leases l
      → r.ready ≡ l ∷ (unless_failed r o).0.ready
  unfolding unless_failed
  unless_leases none l h = pop_leases r.ready l h
  unless_leases (some e) l h = absurd (cc h)

  acquire_leases : (l : AgentLease) → (acquire r).1 ≡ leases l → r.ready ≡ l ∷ (acquire r).0.ready
  unfolding acquire
  acquire_leases l h = ground (arith, unless_leases r.initial_error l)

  pop_nothing : (ls : List AgentLease) → (pop_ready r ls).1 ≡ nothing_left → is_exhausted r ≡ true
  unfolding pop_ready
  pop_nothing [] h = ground arith
  pop_nothing (k ∷ ls) h = absurd (cc h)

  unless_nothing :
      (o : Option String) → (unless_failed r o).1 ≡ nothing_left → is_exhausted r ≡ true
  unfolding unless_failed
  unless_nothing none h = pop_nothing r.ready h
  unless_nothing (some e) h = absurd (cc h)

  acquire_nothing : (acquire r).1 ≡ nothing_left → r.stopped ≡ false → is_exhausted r ≡ true
  unfolding acquire
  acquire_nothing h running = ground (arith, unless_nothing r.initial_error)

exhausted_lem :
    {w : World}
    → IsConserved w
    → is_exhausted w.rt ≡ true
    → (w.rt.initial_load_done ≡ true) × (w.rt.ready ≡ []) × (w.held ≡ []) × (w.refilling ≡ [])
unfolding is_exhausted is_empty
exhausted_lem {w} c h = (
  ground arith,
  ground arith,
  ground (arith, c.leased, nat_eq.beq_iff w.rt.leased 0),
  ground (arith, c.refills, nat_eq.beq_iff w.rt.refills_in_flight 0),
)

-- A known key is one of a lease that is somewhere.
none_known :
    {w : World}
    → IsConserved w
    → w.rt.ready ≡ []
    → w.held ≡ []
    → w.refilling ≡ []
    → (k : Key) → contains k w.rt.known ≡ false
unfolding copies
none_known {w} c e f g k = ground (arith, c.once k, e, f, g)

-- A lease that `acquire` hands out is the oldest ready one, and no other client holds it, nor is it
-- being refilled.
pub acquire_lem :
    {w : World} (l : AgentLease)
    → Reach w
    → (acquire w.rt).1 ≡ leases l
    → (w.rt.ready ≡ l ∷ (acquire w.rt).0.ready)
      × (contains (key_of l) w.held ≡ false)
      × (contains (key_of l) w.refilling ≡ false)
unfolding copies is_lease
acquire_lem {w} l reached h =
    let c = Reach-IsConserved reached in
    let first = acquire_leases w.rt l h in
    (
      first,
      ground
          (arith, c.once (key_of l), first, ==-self (key_of l), contains-count (key_of l) w.held),
      ground (
        arith,
        c.once (key_of l),
        first,
        ==-self (key_of l),
        contains-count (key_of l) w.refilling,
      ),
    )

-- A client is told that nothing is left only once the runtime is stopped, or when the initial load
-- is over, no client holds a lease, none is being refilled, and no key is known any more.
pub nothing_left_lem :
    {w : World}
    → Reach w
    → (acquire w.rt).1 ≡ nothing_left
    → w.rt.stopped ≡ false
    → (w.rt.initial_load_done ≡ true)
      × (w.held ≡ [])
      × (w.refilling ≡ [])
      × ((k : Key) → contains k w.rt.known ≡ false)
nothing_left_lem {w} reached h running =
    let c = Reach-IsConserved reached in
    let (loaded, ready, held, refilling) = exhausted_lem c (acquire_nothing w.rt h running) in
    (loaded, held, refilling, none_known c ready held refilling)
