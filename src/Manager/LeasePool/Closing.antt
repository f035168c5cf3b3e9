-- ===== src/Manager/LeasePool/Closing.antt =====
-- The refills that are under way, and the closing of the pool.
pub mod Refills
pub mod Balance
use safactory.Base.{
  string_eq, nat_eq, Bool, List, Option, String, [], contains, false, if_elim, none, not, refl,
  some, true, ℕ, ◌&&◌, ◌++◌, ◌||◌, ◌∙◌, ◌∷◌, ◌≡◌,
}
use safactory.Manager.Keys.{key_eq, Key}
use safactory.Manager.LeaseRuntime.{
  Runtime, AgentLease, Answer, acquire, add_ready_lease, key_of, mark_initial_load_done, pop_ready,
  replace, unless_failed,
}
use safactory.Manager.LeasePool.{
  LeasePool, RefillAnswer, acquire_ready, begin_close, begin_done, end_done, enqueue_manager_leases,
  enqueue_ready_entry, finish_close, init_pool, start, start_manager, stop_refills,
}

-- The calls of `done` that await the manager, each with whether it has entered its refill.
abbrev pub Open : Type 0
Open = List (ℕ × Key × Bool)

abbrev pub has_entered : ℕ × Key × Bool → Bool
has_entered call = call.2

-- What may happen to the pool. `aclose` goes on to its end only after it has begun.
pub data Step : LeasePool × Open → LeasePool × Open → Type 0 where
  starts : (p : LeasePool) (o : Open) (entries : List AgentLease) → Step (p, o) (start entries p, o)
  starts_sandbox :
      (p : LeasePool) (o : Open) (error : Option String) (entries : List AgentLease)
      → Step (p, o) (start_manager error entries p, o)
  publishes :
      (p : LeasePool) (o : Open) (l : AgentLease) → Step (p, o) ((enqueue_ready_entry l p).0, o)
  repairs :
      (p : LeasePool) (o : Open) (entries : List AgentLease)
      → Step (p, o) ((enqueue_manager_leases entries p).0, o)
  acquires : (p : LeasePool) (o : Open) → Step (p, o) ((acquire_ready p).0, o)
  begins :
      (p : LeasePool) (o : Open) (task : ℕ) (key : Key)
      → Step (p, o) ((begin_done task key p).0, (task, key, (begin_done task key p).1) ∷ o)
  ends :
      (p : LeasePool) (before : Open) (after : Open) (task : ℕ) (key : Key) (entered : Bool)
      (answer : RefillAnswer)
      → Step
          (p, before ++ ((task, key, entered) ∷ after))
          (end_done task key entered answer p, before ++ after)
  stops : (p : LeasePool) (o : Open) (reason : String) → Step (p, o) (stop_refills reason p, o)
  begins_close : (p : LeasePool) (o : Open) → Step (p, o) (begin_close p, o)
  ends_close : (p : LeasePool) (o : Open) → p.closing ≡ true → Step (p, o) (finish_close p, o)

pub data Reach : LeasePool × Open → Type 0 where
  made : Reach (init_pool, [])
  stepped : {s t : LeasePool × Open} → Reach s → Step s t → Reach t

-- The pool and its queue count the refills that are under way; a pool that closes has stopped its
-- queue; a closed pool is one that closes, and has no refill under way.
abbrev pub IsBalanced : LeasePool → ℕ → Type 0
IsBalanced p n =
    (p.active_refills ≡ n)
    × (p.runtime.refills_in_flight ≡ n)
    × (p.closing ≡ true → p.runtime.stopped ≡ true)
    × (p.closed ≡ true → (p.closing ≡ true) × (n ≡ 0))
