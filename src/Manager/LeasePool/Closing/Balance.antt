-- ===== src/Manager/LeasePool/Closing/Balance.antt =====
-- Every step keeps the counts of the refills and the order of the closing.
use safactory.Base.{
  count_if, count_if-append, ap, string_eq, nat_eq, Bool, String, arith, false, if_elim,
  if◌then◌else◌, ltb, refl, subst, true, ℕ, ◌++◌, ◌+◌, ◌||◌, ◌∙◌, ◌∷◌, ◌≡◌,
}
use safactory.Manager.Keys.{key_eq, Key}
use safactory.Manager.LeaseRuntime.{AgentLease, stop, nothing_left}
use safactory.Manager.LeasePool.{
  LeasePool, RefillAnswer, acquire_ready, begin_close, begin_done, end_done, enqueue_ready_entry,
  enter_refill_if_open, finish_close, stop_refills,
}
use safactory.Manager.LeasePool.Closing.{
  Open, IsBalanced, Reach, Step, acquires, begins, begins_close, ends, ends_close, made,
  has_entered, publishes, repairs, starts, starts_sandbox, stepped, stops,
}
use safactory.Manager.LeasePool.Closing.Refills.{
  enqueue-IsBalanced, enqueue_all-IsBalanced, start_manager-IsBalanced, start-IsBalanced,
  acquire-IsBalanced, begin-IsBalanced, end-IsBalanced, close_early-IsBalanced,
}

stop-IsBalanced :
    (reason : String) (p : LeasePool) (n : ℕ)
    → IsBalanced p n
    → IsBalanced (stop_refills reason p) n
unfolding stop_refills stop
stop-IsBalanced reason p n s =
    if_elim (λ (x : LeasePool). IsBalanced x n) (p.closing || p.closed) _ _ s
      (s.0, s.1, λ h. refl, λ h. (refl, (s.3 h).1))

begin_close-IsBalanced : (p : LeasePool) (n : ℕ) → IsBalanced p n → IsBalanced (begin_close p) n
unfolding begin_close stop
begin_close-IsBalanced p n s =
    if_elim (λ (x : LeasePool). IsBalanced x n) p.closed _ _ s
      (s.0, s.1, λ h. refl, λ h. (refl, (s.3 h).1))

finish_close-IsBalanced :
    (p : LeasePool) (n : ℕ) → p.closing ≡ true → IsBalanced p n → IsBalanced (finish_close p) n
unfolding finish_close
finish_close-IsBalanced p n closing s = by_count (ltb 0 p.active_refills) refl
  where
    by_count :
        (b : Bool)
        → ltb 0 p.active_refills ≡ b
        → IsBalanced (if b then p else record p { closed = true }) n
    by_count true e = s
    by_count false e = (s.0, s.1, s.2, λ h. (closing, ground (arith, s.0)))

count-middle :
    (before after : Open) (call : ℕ × Key × Bool)
    → count_if has_entered (before ++ (call ∷ after))
      ≡ count_if has_entered (before ++ after) + (if has_entered call then 1 else 0)
count-middle before after call = omega (
  arith,
  count_if-append has_entered before (call ∷ after),
  count_if-append has_entered before after,
)

ends-IsBalanced :
    (p : LeasePool) (before after : Open) (task : ℕ) (key : Key) (entered : Bool)
    (answer : RefillAnswer)
    → IsBalanced p (count_if has_entered (before ++ ((task, key, entered) ∷ after)))
    → IsBalanced (end_done task key entered answer p) (count_if has_entered (before ++ after))
ends-IsBalanced p before after task key true answer s =
    end-IsBalanced task key answer p (count_if has_entered (before ++ after))
      (subst (IsBalanced p) (count-middle before after (task, key, true)) s)
ends-IsBalanced p before after task key false answer s =
    close_early-IsBalanced task key answer p (count_if has_entered (before ++ after))
      (subst (IsBalanced p) (count-middle before after (task, key, false) ∙ omega arith) s)

Step-IsBalanced :
    {s t : LeasePool × Open}
    → Step s t
    → IsBalanced s.0 (count_if has_entered s.1)
    → IsBalanced t.0 (count_if has_entered t.1)
Step-IsBalanced (starts p o entries) s = start-IsBalanced entries p (count_if has_entered o) s
Step-IsBalanced (starts_sandbox p o error entries) s =
    start_manager-IsBalanced error entries p (count_if has_entered o) s
Step-IsBalanced (publishes p o l) s = enqueue-IsBalanced l p (count_if has_entered o) s
Step-IsBalanced (repairs p o entries) s =
    enqueue_all-IsBalanced entries p (count_if has_entered o) s
Step-IsBalanced (acquires p o) s = acquire-IsBalanced p (count_if has_entered o) s
Step-IsBalanced (begins p o task key) s = begin-IsBalanced task key p o s
Step-IsBalanced (ends p before after task key entered answer) s =
    ends-IsBalanced p before after task key entered answer s
Step-IsBalanced (stops p o reason) s = stop-IsBalanced reason p (count_if has_entered o) s
Step-IsBalanced (begins_close p o) s = begin_close-IsBalanced p (count_if has_entered o) s
Step-IsBalanced (ends_close p o closing) s =
    finish_close-IsBalanced p (count_if has_entered o) closing s

-- In every state that is reached, the pool and its queue of leases both count as many refills as
-- there are calls of `done` that have entered theirs and await the manager; a pool that closes has
-- stopped its queue; and a closed pool is one that closes and has no such call.
pub Reach-IsBalanced : {s : LeasePool × Open} → Reach s → IsBalanced s.0 (count_if has_entered s.1)
Reach-IsBalanced made = (refl, refl, λ h. absurd (cc h), λ h. absurd (cc h))
Reach-IsBalanced (stepped r step) = Step-IsBalanced step (Reach-IsBalanced r)

not_entered :
    (o before after : Open) (task : ℕ) (key : Key) (entered : Bool)
    → count_if has_entered o ≡ 0
    → o ≡ before ++ ((task, key, entered) ∷ after)
    → entered ≡ false
not_entered o before after task key false none_open e = refl
not_entered o before after task key true none_open e =
    let here : count_if has_entered o
        ≡ count_if has_entered (before ++ ((task, key, true) ∷ after)) =
      ap (count_if has_entered) e in
    absurd (omega (arith, none_open, here, count-middle before after (task, key, true)))

-- Once the pool is closed, of the calls of `done` that still await the manager none has entered a
-- refill, none enters one any more, no client gets a lease, and no instance is published.
pub closed_pool_lem :
    {p : LeasePool} {o : Open}
    → Reach (p, o)
    → p.closed ≡ true
    → ((before after : Open) (task : ℕ) (key : Key) (entered : Bool)
        → o ≡ before ++ ((task, key, entered) ∷ after)
        → entered ≡ false)
      × ((task : ℕ) (key : Key) → begin_done task key p ≡ (p, false))
      × ((acquire_ready p).1 ≡ nothing_left)
      × ((l : AgentLease) → enqueue_ready_entry l p ≡ (p, false))
unfolding begin_done enter_refill_if_open acquire_ready enqueue_ready_entry
closed_pool_lem {p} {o} reached closed =
    let s = Reach-IsBalanced reached in
    let closing = (s.3 closed).0 in
    (
      λ before after task key entered e.
          not_entered o before after task key entered (s.3 closed).1 e,
      λ task key. ground (arith, closing),
      ground (arith, closing),
      λ l. ground (arith, closing),
    )
