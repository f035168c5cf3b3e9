-- ===== src/Manager/LeasePool/Closing/Refills.antt =====
-- Publishing, acquiring and refilling keep the counts of the refills.
use safactory.Base.{
  count_if, string_eq, nat_eq, Bool, List, Option, String, [], arith, contains, false, if_elim,
  if◌then◌else◌, none, not, refl, some, true, ℕ, ◌&&◌, ◌+◌, ◌||◌, ◌∙◌, ◌∷◌, ◌≡◌,
}
use safactory.Manager.Keys.{key_eq, Key}
use safactory.Manager.LeaseRuntime.{
  Runtime, AgentLease, Answer, acquire, add_ready_lease, begin_refill, fail_refill, finish_refill,
  key_of, mark_initial_load_done, pop_ready, replace, unless_failed,
}
use safactory.Manager.LeasePool.{
  LeasePool, RefillAnswer, acquire_ready, begin_done, cancelled, clear_deadline, end_done,
  enqueue_manager_leases, enqueue_ready_entry, enter_refill_if_open, finish_without_replacement,
  leave_refill, raised, refill_answered, replacement, settle, start, start_manager, timed_out,
}
use safactory.Manager.LeasePool.Closing.{Open, IsBalanced, has_entered}

-- What most operations keep of the queue.

abbrev pub Kept : Runtime → Runtime → Type 0
Kept r r1 = (r1.refills_in_flight ≡ r.refills_in_flight) × (r1.stopped ≡ r.stopped)

add_ready-Kept : (r : Runtime) (key : Key) (l : AgentLease) → Kept r (add_ready_lease r key l).0
unfolding add_ready_lease
add_ready-Kept r key l =
    if_elim (λ (q : Runtime × Bool). Kept r q.0) (r.stopped || contains key r.known) _ _
      (refl, refl) (refl, refl)

acquire-Kept : (r : Runtime) → Kept r (acquire r).0
unfolding acquire
acquire-Kept r =
    if_elim (λ (q : Runtime × Answer). Kept r q.0) r.stopped _ _ (refl, refl)
      (loaded r.initial_error)
  where
    popped : (ls : List AgentLease) → Kept r (pop_ready r ls).0
    popped [] = (refl, refl)
    popped (l ∷ ls) = (refl, refl)

    loaded : (e : Option String) → Kept r (unless_failed r e).0
    loaded none = popped r.ready
    loaded (some e) = (refl, refl)

replace-Kept : (r : Runtime) (key : Option Key) (l : Option AgentLease) → Kept r (replace r key l).0
unfolding replace
replace-Kept r none l = (refl, refl)
replace-Kept r (some key) none = (refl, refl)
replace-Kept r (some key) (some l) =
    if_elim (λ (q : Runtime × Bool). Kept r q.0) (not r.stopped && not (contains key r.known)) _ _
      (refl, refl) (refl, refl)

with_runtime-IsBalanced :
    (p : LeasePool) (r1 : Runtime) (n : ℕ)
    → Kept p.runtime r1
    → IsBalanced p n
    → IsBalanced (record p { runtime = r1 }) n
with_runtime-IsBalanced p r1 n k s = (s.0, k.0 ∙ s.1, λ h. k.1 ∙ s.2 h, s.3)

pub enqueue-IsBalanced :
    (l : AgentLease) (p : LeasePool) (n : ℕ)
    → IsBalanced p n
    → IsBalanced (enqueue_ready_entry l p).0 n
unfolding enqueue_ready_entry
enqueue-IsBalanced l p n s =
    let q = add_ready_lease p.runtime (key_of l) l in
    let kept = with_runtime-IsBalanced p q.0 n (add_ready-Kept p.runtime (key_of l) l) s in
    if_elim (λ (o : LeasePool × Bool). IsBalanced o.0 n) p.closing _ _ s
      (if_elim (λ (o : LeasePool × Bool). IsBalanced o.0 n) q.1 _ _ kept kept)

pub enqueue_all-IsBalanced :
    (ls : List AgentLease) (p : LeasePool) (n : ℕ)
    → IsBalanced p n
    → IsBalanced (enqueue_manager_leases ls p).0 n
unfolding enqueue_manager_leases
enqueue_all-IsBalanced [] p n s = s
enqueue_all-IsBalanced (l ∷ ls) p n s =
    enqueue_all-IsBalanced ls (enqueue_ready_entry l p).0 n (enqueue-IsBalanced l p n s)

pub start_manager-IsBalanced :
    (error : Option String) (entries : List AgentLease) (p : LeasePool) (n : ℕ)
    → IsBalanced p n
    → IsBalanced (start_manager error entries p) n
unfolding start_manager mark_initial_load_done
start_manager-IsBalanced none entries p n s = enqueue_all-IsBalanced entries p n s
start_manager-IsBalanced (some e) entries p n s = s

pub start-IsBalanced :
    (entries : List AgentLease) (p : LeasePool) (n : ℕ)
    → IsBalanced p n
    → IsBalanced (start entries p) n
unfolding start mark_initial_load_done
start-IsBalanced entries p n s = enqueue_all-IsBalanced entries p n s

pub acquire-IsBalanced : (p : LeasePool) (n : ℕ) → IsBalanced p n → IsBalanced (acquire_ready p).0 n
unfolding acquire_ready
acquire-IsBalanced p n s =
    if_elim (λ (o : LeasePool × Answer). IsBalanced o.0 n) p.closing _ _ s
      (with_runtime-IsBalanced p (acquire p.runtime).0 n (acquire-Kept p.runtime) s)

pub begin-IsBalanced :
    (task : ℕ) (key : Key) (p : LeasePool) (o : Open)
    → IsBalanced p (count_if has_entered o)
    → IsBalanced
        (begin_done task key p).0
        (count_if has_entered ((task, key, (begin_done task key p).1) ∷ o))
unfolding begin_done enter_refill_if_open begin_refill
begin-IsBalanced task key p o s = by_closing (p.closing || p.closed) refl
  where
    entered : LeasePool
    entered = record p {
      active_refills = p.active_refills + 1;
      refill_tasks = task ∷ p.refill_tasks;
    }

    by_closing :
        (closing : Bool)
        → (p.closing || p.closed) ≡ closing
        → (let q : LeasePool × Bool = if closing then (p, false) else (entered, true) in
            let q1 : LeasePool × Bool =
              if q.1
              then (record q.0 { runtime = begin_refill q.0.runtime key }, true)
              else (q.0, false) in
            IsBalanced q1.0 (count_if has_entered ((task, key, q1.1) ∷ o)))
    by_closing true e =
        (omega (arith, s.0), omega (arith, s.1), s.2, λ h. ((s.3 h).0, omega (arith, (s.3 h).1)))
    by_closing false e =
        (omega (arith, s.0), omega (arith, s.1), s.2, λ h. absurd (ground (arith, e, h)))

-- A refill that leaves: its place in both counts is given back.
left-IsBalanced :
    (task : ℕ) (p : LeasePool) (r1 : Runtime) (n : ℕ)
    → r1.refills_in_flight ≡ n
    → r1.stopped ≡ p.runtime.stopped
    → IsBalanced p (n + 1)
    → IsBalanced (leave_refill task (record p { runtime = r1 })) n
unfolding leave_refill
left-IsBalanced task p r1 n count stopped s =
    (ground (arith, s.0), count, λ h. stopped ∙ s.2 h, λ h. absurd (omega (arith, (s.3 h).1)))

fail-count :
    (r : Runtime) (key : Key) (n : ℕ)
    → r.refills_in_flight ≡ n + 1
    → (fail_refill r key).refills_in_flight ≡ n
unfolding fail_refill
fail-count r key n e = ground (arith, e)

fail-stopped : (r : Runtime) (key : Key) → (fail_refill r key).stopped ≡ r.stopped
unfolding fail_refill
fail-stopped r key = refl

pub end-IsBalanced :
    (task : ℕ) (key : Key) (answer : RefillAnswer) (p : LeasePool) (n : ℕ)
    → IsBalanced p (n + 1)
    → IsBalanced (end_done task key true answer p) n
unfolding end_done settle refill_answered finish_refill clear_deadline
end-IsBalanced task key timed_out p n s =
    left-IsBalanced task p (fail_refill p.runtime key) n (fail-count p.runtime key n s.1)
      (fail-stopped p.runtime key) s
end-IsBalanced task key cancelled p n s =
    left-IsBalanced task p (fail_refill p.runtime key) n (fail-count p.runtime key n s.1)
      (fail-stopped p.runtime key) s
end-IsBalanced task key raised p n s =
    left-IsBalanced task p (fail_refill p.runtime key) n (fail-count p.runtime key n s.1)
      (fail-stopped p.runtime key) s
end-IsBalanced task key (replacement none) p n s =
    left-IsBalanced task p (replace (fail_refill p.runtime key) none none).0 n
      (replaced.0 ∙ fail-count p.runtime key n s.1) (replaced.1 ∙ fail-stopped p.runtime key) s
  where
    replaced : Kept (fail_refill p.runtime key) (replace (fail_refill p.runtime key) none none).0
    replaced = replace-Kept (fail_refill p.runtime key) none none
end-IsBalanced task key (replacement (some l)) p n s =
    let rt = replace (fail_refill p.runtime key) (some (key_of l)) (some l) in
    let replaced = replace-Kept (fail_refill p.runtime key) (some (key_of l)) (some l) in
    let kept =
      left-IsBalanced task p rt.0 n (replaced.0 ∙ fail-count p.runtime key n s.1)
        (replaced.1 ∙ fail-stopped p.runtime key) s in
    if_elim (λ (x : LeasePool). IsBalanced (leave_refill task x) n) rt.1 _ _
      (unfold leave_refill in kept) kept

pub close_early-IsBalanced :
    (task : ℕ) (key : Key) (answer : RefillAnswer) (p : LeasePool) (n : ℕ)
    → IsBalanced p n
    → IsBalanced (end_done task key false answer p) n
unfolding end_done finish_without_replacement fail_refill begin_refill
close_early-IsBalanced task key answer p n s = (s.0, ground (arith, s.1), s.2, s.3)
