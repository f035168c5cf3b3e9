-- ===== src/Manager/LeaseRuntime.antt =====
-- manager/simulation_lease_pool.py: the queue of leases over warmed agent instances. The condition
-- variable makes each method one step; `acquire` runs once for each time that it is woken.
pub mod Conservation
pub mod Handout
pub mod Examples
use safactory.Manager.Keys.{key_eq, Key}
use safactory.Base.{
  nat_eq, nat_eq, Bool, List, Option, String, [], add, contains, discard, false, if◌then◌else◌, ltb,
  none, not, some, true, ℕ, ◌&&◌, ◌++◌, ◌+◌, ◌-◌, ◌==◌, ◌||◌, ◌∷◌, Eq,
}

-- `SimulationAgentLease`, less the description of the resource, which the pool does not read.
pub record AgentLease : Type 0 where
  pub agent_name : String
  pub agent_id : String
  pub group_id : String
  pub image : String

unfoldable pub key_of : AgentLease → Key
key_of l = (l.agent_name, l.agent_id)

-- `_LeaseRuntimeState`; an exception is its text.
pub record Runtime : Type 0 where
  pub ready : List AgentLease
  pub known : List Key
  pub leased : ℕ
  pub refills_in_flight : ℕ
  pub initial_load_done : Bool
  pub initial_error : Option String
  pub stopped : Bool

abbrev pub init : Runtime
init = record {
  ready = [];
  known = [];
  leased = 0;
  refills_in_flight = 0;
  initial_load_done = false;
  initial_error = none;
  stopped = false;
}

unfoldable pub stop : Runtime → Runtime
stop r = record r { stopped = true }

pub is_empty : List AgentLease → Bool
is_empty [] = true
is_empty (l ∷ ls) = false

-- `_is_exhausted_locked`, which is also `is_idle`.
pub is_exhausted : Runtime → Bool
unfolding is_empty
is_exhausted r =
    r.initial_load_done && is_empty r.ready && (r.leased == 0) && (r.refills_in_flight == 0)

unfoldable pub add_ready_lease : Runtime → Key → AgentLease → Runtime × Bool
add_ready_lease r key lease =
    if r.stopped || contains key r.known
    then (r, false)
    else (record r { known = add key r.known; ready = r.ready ++ (lease ∷ []) }, true)

unfoldable pub mark_initial_load_done : Runtime → Option String → Runtime
mark_initial_load_done r error = record r { initial_load_done = true; initial_error = error }

-- What one pass of `acquire`'s loop comes to: a lease, None, the exception of the initial load, or
-- a wait.
pub data Answer : Type 0 where
  leases : AgentLease → Answer
  nothing_left : Answer
  raises : String → Answer
  waits : Answer

unfoldable pub pop_ready : Runtime → List AgentLease → Runtime × Answer
unfolding is_exhausted
pop_ready r (l ∷ ls) = (record r { leased = r.leased + 1; ready = ls }, leases l)
pop_ready r [] = (r, if is_exhausted r then nothing_left else waits)

unfoldable pub unless_failed : Runtime → Option String → Runtime × Answer
unfolding pop_ready
unless_failed r (some e) = (r, raises e)
unless_failed r none = pop_ready r r.ready

unfoldable pub acquire : Runtime → Runtime × Answer
unfolding unless_failed
acquire r = if r.stopped then (r, nothing_left) else unless_failed r r.initial_error

unfoldable pub begin_refill : Runtime → Key → Runtime
begin_refill r old_key = record r {
  leased = if ltb 0 r.leased then r.leased - 1 else r.leased;
  refills_in_flight = r.refills_in_flight + 1;
}

unfoldable pub fail_refill : Runtime → Key → Runtime
fail_refill r old_key = record r {
  known = discard old_key r.known;
  refills_in_flight =
      if ltb 0 r.refills_in_flight then r.refills_in_flight - 1 else r.refills_in_flight;
}

-- The tests of the replacement: both a key and a lease are given, and the key is not known.
unfoldable pub replace : Runtime → Option Key → Option AgentLease → Runtime × Bool
replace r none lease = (r, false)
replace r (some key) none = (r, false)
replace r (some key) (some lease) =
    if not r.stopped && not (contains key r.known)
    then (record r { known = add key r.known; ready = r.ready ++ (lease ∷ []) }, true)
    else (r, false)

-- The old key leaves as it does in a refill that failed.
unfoldable pub finish_refill : Runtime → Key → Option Key → Option AgentLease → Runtime × Bool
unfolding replace fail_refill
finish_refill r old_key new_key lease = replace (fail_refill r old_key) new_key lease
