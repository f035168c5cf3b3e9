-- ===== src/Manager/LeasePool/Examples.antt =====
-- Tests of the lease pool, and its theorems at a concrete run.
use safactory.Base.{
  Bool, count_if, ◌++◌, string_eq, nat_eq, String, [], add, contains, discard, false, refl, some,
  true, ℕ, ◌∷◌, ◌≡◌,
}
use safactory.Manager.Keys.{key_eq, Key}
use safactory.Manager.LeaseRuntime.{
  AgentLease, acquire, add_ready_lease, begin_refill, fail_refill, finish_refill, key_of,
  mark_initial_load_done, nothing_left, pop_ready, replace, stop, unless_failed,
}
use safactory.Manager.LeasePool.{
  LeasePool, acquire_ready, begin_close, begin_done, clear_deadline, end_done,
  enqueue_manager_leases, enqueue_ready_entry, enter_refill_if_open, finish_close, init_pool,
  leave_refill, refill_answered, replacement, settle, start,
}
use safactory.Manager.LeasePool.Closing.{
  Open, has_entered, IsBalanced, Reach, acquires, begins, begins_close, ends, ends_close, made,
  starts, stepped,
}
use safactory.Manager.LeasePool.Closing.Balance.{closed_pool_lem, Reach-IsBalanced}

abbrev lease : String → AgentLease
lease id = record { agent_name = "a"; agent_id = id; group_id = ""; image = "i" }

-- A lease is published and handed out, a refill replaces it, and the pool closes.
abbrev started : LeasePool
started = start (lease "1" ∷ []) init_pool

abbrev refilling : LeasePool
refilling = (begin_done 7 ("a", "1") (acquire_ready started).0).0

abbrev refilled : LeasePool
refilled = end_done 7 ("a", "1") true (replacement (some (lease "2"))) refilling

abbrev closed : LeasePool
closed = finish_close (begin_close refilled)

replaced : refilled.runtime.ready ≡ lease "2" ∷ []
unfolding start enqueue_manager_leases enqueue_ready_entry add_ready_lease mark_initial_load_done
    key_of acquire_ready acquire unless_failed pop_ready begin_done enter_refill_if_open
    begin_refill end_done refill_answered finish_refill fail_refill replace settle leave_refill
    clear_deadline contains add discard key_eq
replaced = refl

waits_for_refill : (finish_close (begin_close refilling)).closed ≡ false
unfolding start enqueue_manager_leases enqueue_ready_entry add_ready_lease mark_initial_load_done
    key_of acquire_ready acquire unless_failed pop_ready begin_done enter_refill_if_open
    begin_refill begin_close finish_close stop contains add key_eq
waits_for_refill = refl

abbrev no_open : Open
no_open = []

reached_closed : Reach (closed, [])
unfolding start enqueue_manager_leases enqueue_ready_entry add_ready_lease mark_initial_load_done
    key_of acquire_ready acquire unless_failed pop_ready begin_done enter_refill_if_open
    begin_refill end_done refill_answered finish_refill fail_refill replace settle leave_refill
    clear_deadline begin_close stop contains add discard key_eq
reached_closed =
    stepped
      (stepped
        (stepped
          (stepped
            (stepped (stepped made (starts init_pool [] (lease "1" ∷ []))) (acquires started []))
            (begins (acquire_ready started).0 [] 7 ("a", "1")))
          (ends refilling [] [] 7 ("a", "1") true (replacement (some (lease "2")))))
        (begins_close refilled []))
      (ends_close (begin_close refilled) [] refl)

Reach-IsBalanced_example : IsBalanced closed (count_if has_entered no_open)
Reach-IsBalanced_example = Reach-IsBalanced reached_closed

-- A call of `done` that comes after the closing, and awaits the manager.
abbrev late_call : Open
late_call = (9, ("a", "2"), false) ∷ []

reached_late : Reach (closed, late_call)
unfolding start enqueue_manager_leases enqueue_ready_entry add_ready_lease mark_initial_load_done
    key_of acquire_ready acquire unless_failed pop_ready begin_done enter_refill_if_open
    begin_refill end_done refill_answered finish_refill fail_refill replace settle leave_refill
    clear_deadline begin_close finish_close stop contains add discard key_eq
reached_late = stepped reached_closed (begins closed [] 9 ("a", "2"))

closed_pool_lem_example :
    ((before after : Open) (task : ℕ) (key : Key) (entered : Bool)
      → late_call ≡ before ++ ((task, key, entered) ∷ after)
      → entered ≡ false)
    × ((task : ℕ) (key : Key) → begin_done task key closed ≡ (closed, false))
    × ((acquire_ready closed).1 ≡ nothing_left)
    × ((l : AgentLease) → enqueue_ready_entry l closed ≡ (closed, false))
unfolding start enqueue_manager_leases enqueue_ready_entry add_ready_lease mark_initial_load_done
    key_of acquire_ready acquire unless_failed pop_ready begin_done enter_refill_if_open
    begin_refill end_done refill_answered finish_refill fail_refill replace settle leave_refill
    clear_deadline begin_close finish_close stop contains add discard key_eq
closed_pool_lem_example = closed_pool_lem reached_late refl
