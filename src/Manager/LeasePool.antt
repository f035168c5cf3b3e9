-- ===== src/Manager/LeasePool.antt =====
-- manager/simulation_lease_pool.py: the pool around the queue of leases, which hands finished leases
-- back to the manager, takes replacements from it, and closes once no refill is under way. What the
-- manager answers is a parameter. `done` awaits the manager in the middle, and is two steps.
pub mod Closing
pub mod Examples
use safactory.Base.{
  string_eq, nat_eq, Bool, List, Option, String, [], discard, false, if◌then◌else◌, ltb, none, some,
  true, ℕ, ◌+◌, ◌-◌, ◌||◌, ◌∷◌,
}
use safactory.Manager.Keys.{key_eq, Key}
use safactory.Manager.LeaseRuntime.{
  Runtime, AgentLease, Answer, acquire, add_ready_lease, begin_refill, fail_refill, finish_refill,
  key_of, mark_initial_load_done, nothing_left, stop, init,
}

pub record LeasePool : Type 0 where
  pub runtime : Runtime
  pub active_refills : ℕ
  pub refill_tasks : List ℕ
  pub startup_ready : Bool
  pub repair_deadline : Option ℕ
  pub closing : Bool
  pub closed : Bool
  pub stop_reason : String

abbrev pub init_pool : LeasePool
init_pool = record {
  runtime = safactory.Manager.LeaseRuntime.init;
  active_refills = 0;
  refill_tasks = [];
  startup_ready = false;
  repair_deadline = none;
  closing = false;
  closed = false;
  stop_reason = "";
}

-- `_enqueue_ready_entry`; the lease of an entry is its conversion.
pub enqueue_ready_entry : AgentLease → LeasePool → LeasePool × Bool
unfolding add_ready_lease
enqueue_ready_entry lease p =
    let (rt, added) = add_ready_lease p.runtime (key_of lease) lease in
    if p.closing
    then (p, false)
    else if added
    then (record p { runtime = rt; repair_deadline = none; startup_ready = true }, true)
    else (record p { runtime = rt }, false)

-- How many of the manager's instances are added.
pub enqueue_manager_leases : List AgentLease → LeasePool → LeasePool × ℕ
unfolding enqueue_ready_entry
enqueue_manager_leases [] p = (p, 0)
enqueue_manager_leases (l ∷ ls) p =
    let (p1, added) = enqueue_ready_entry l p in
    let (p2, n) = enqueue_manager_leases ls p1 in (p2, (if added then 1 else 0) + n)

-- `start`, where the manager is not a sandbox.
pub start : List AgentLease → LeasePool → LeasePool
unfolding enqueue_manager_leases mark_initial_load_done
start entries p =
    let (p1, added) = enqueue_manager_leases entries p in
    record p1 { runtime = mark_initial_load_done p1.runtime none }

-- `_start_manager`, of a sandbox: the exception of the manager's start, if any.
pub start_manager : Option String → List AgentLease → LeasePool → LeasePool
unfolding enqueue_manager_leases mark_initial_load_done
start_manager none entries p =
    let (p1, added) = enqueue_manager_leases entries p in
    record p1 { runtime = mark_initial_load_done p1.runtime none; startup_ready = true }
start_manager (some e) entries p = record p {
  runtime = mark_initial_load_done p.runtime (some e);
  startup_ready = true;
}

pub enter_refill_if_open : ℕ → LeasePool → LeasePool × Bool
enter_refill_if_open task p = if p.closing || p.closed then (p, false) else (
  record p { active_refills = p.active_refills + 1; refill_tasks = task ∷ p.refill_tasks },
  true,
)

pub leave_refill : ℕ → LeasePool → LeasePool
leave_refill task p = record p {
  active_refills = if ltb 0 p.active_refills then p.active_refills - 1 else p.active_refills;
  refill_tasks = discard task p.refill_tasks;
}

pub finish_without_replacement : Key → LeasePool → LeasePool
unfolding begin_refill fail_refill
finish_without_replacement old_key p = record p {
  runtime = fail_refill (begin_refill p.runtime old_key) old_key;
}

-- How the manager's `close_and_refill` ends, within the timeout or not.
pub data RefillAnswer : Type 0 where
  timed_out cancelled raised : RefillAnswer
  replacement : Option AgentLease → RefillAnswer

-- `_close_and_refill` once the manager has answered: whether the refill is settled; a cancellation
-- leaves it unsettled.
pub clear_deadline : Bool → LeasePool → LeasePool
clear_deadline added p = if added then record p { repair_deadline = none } else p

pub refill_answered : Key → RefillAnswer → LeasePool → LeasePool × Bool
unfolding finish_refill clear_deadline
refill_answered old_key timed_out p = (p, false)
refill_answered old_key cancelled p = (p, false)
refill_answered old_key raised p = (p, false)
refill_answered old_key (replacement none) p =
    (record p { runtime = (finish_refill p.runtime old_key none none).0 }, true)
refill_answered old_key (replacement (some lease)) p =
    let (rt, added) = finish_refill p.runtime old_key (some (key_of lease)) (some lease) in
    (clear_deadline added (record p { runtime = rt }), true)

-- `done`, up to the call of the manager, which it makes in either case: whether the refill is entered.
pub begin_done : ℕ → Key → LeasePool → LeasePool × Bool
unfolding enter_refill_if_open begin_refill
begin_done task old_key p =
    let (p1, entered) = enter_refill_if_open task p in
    if entered then (record p1 { runtime = begin_refill p1.runtime old_key }, true) else (p1, false)

-- The `finally` block of `done`.
pub settle : ℕ → Key → LeasePool × Bool → LeasePool
unfolding leave_refill fail_refill
settle task old_key (p, settled) =
    leave_refill task (if settled then p else record p { runtime = fail_refill p.runtime old_key })

-- `done`, from the answer of the manager on.
pub end_done : ℕ → Key → Bool → RefillAnswer → LeasePool → LeasePool
unfolding settle refill_answered finish_without_replacement
end_done task old_key true answer p = settle task old_key (refill_answered old_key answer p)
end_done task old_key false answer p = finish_without_replacement old_key p

pub stop_refills : String → LeasePool → LeasePool
unfolding stop
stop_refills reason p =
    if p.closing || p.closed
    then p
    else record p { closing = true; stop_reason = reason; runtime = stop p.runtime }

-- `aclose`, up to the wait for the refills.
pub begin_close : LeasePool → LeasePool
unfolding stop
begin_close p = if p.closed then p else record p { closing = true; runtime = stop p.runtime }

-- The end of `aclose`; while a refill is under way it waits.
pub finish_close : LeasePool → LeasePool
finish_close p = if ltb 0 p.active_refills then p else record p { closed = true }

-- The first part of a round of `acquire`: a lease, `None` in a pool that closes, or the repair of the
-- pool.
pub acquire_ready : LeasePool → LeasePool × Answer
unfolding acquire
acquire_ready p =
    let (rt, answer) = acquire p.runtime in
    if p.closing then (p, nothing_left) else (record p { runtime = rt }, answer)
