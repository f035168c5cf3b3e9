-- ===== src/Manager/LeaseRuntime/Examples.antt =====
-- Tests of the lease runtime, and its theorems at concrete inputs.
use safactory.Base.{refl, [], add, contains, discard, false, none, take_out, true, ◌∷◌, ◌≡◌}
use safactory.Manager.Keys.{key_eq, Key}
use safactory.Manager.LeaseRuntime.{
  acquire, AgentLease, add_ready_lease, begin_refill, fail_refill, finish_refill, init, is_empty,
  is_exhausted, key_of, leases, mark_initial_load_done, nothing_left, pop_ready, replace,
  unless_failed, waits,
}
use safactory.Manager.LeaseRuntime.Conservation.{
  World, IsConserved, acquires, begins, finishes, handed, loads, publishes,
}
use safactory.Manager.LeaseRuntime.Handout.{
  acquire_lem, Reach, Reach-IsConserved, nothing_left_lem, starts, steps,
}

abbrev first : AgentLease
first = record { agent_name = "shell"; agent_id = "1"; group_id = "g"; image = "i" }

abbrev second : AgentLease
second = record { agent_name = "shell"; agent_id = "2"; group_id = "g"; image = "i" }

abbrev start : World
start = record { rt = init; held = []; refilling = [] }

abbrev published : World
published = record start { rt = (add_ready_lease start.rt (key_of first) first).0 }

abbrev loaded : World
loaded = record published { rt = mark_initial_load_done published.rt none }

abbrev taken : World
taken = record loaded {
  rt = (acquire loaded.rt).0;
  held = handed loaded.held (acquire loaded.rt).1;
}

abbrev refill : World
refill = record {
  rt = begin_refill taken.rt (key_of first);
  held = take_out (key_of first) taken.held;
  refilling = key_of first ∷ taken.refilling;
}

abbrev finished : World
finished = record refill {
  rt = (finish_refill refill.rt (key_of first) none none).0;
  refilling = take_out (key_of first) refill.refilling;
}

loaded-Reach : Reach loaded
loaded-Reach = steps (steps starts (publishes start first)) (loads published none)

hands_out : (acquire loaded.rt).1 ≡ leases first
unfolding acquire unless_failed pop_ready add_ready_lease mark_initial_load_done key_of contains add
    key_eq
hands_out = refl

taken-Reach : Reach taken
taken-Reach = steps loaded-Reach (acquires loaded)

second_waits : (acquire taken.rt).1 ≡ waits
unfolding acquire unless_failed pop_ready is_exhausted is_empty add_ready_lease
    mark_initial_load_done key_of contains add key_eq
second_waits = refl

holds_first : contains (key_of first) taken.held ≡ true
unfolding acquire unless_failed pop_ready add_ready_lease mark_initial_load_done key_of contains add
    key_eq
holds_first = refl

refills_first : contains (key_of first) refill.refilling ≡ true
unfolding key_of contains key_eq
refills_first = refl

finished-Reach : Reach finished
finished-Reach =
    steps (steps taken-Reach (begins taken (key_of first) holds_first))
      (finishes refill (key_of first) none refills_first)

nothing_after : (acquire finished.rt).1 ≡ nothing_left
unfolding acquire unless_failed pop_ready is_exhausted is_empty add_ready_lease
    mark_initial_load_done begin_refill finish_refill fail_refill replace key_of contains add
    discard key_eq
nothing_after = refl

still_running : finished.rt.stopped ≡ false
unfolding acquire unless_failed pop_ready add_ready_lease mark_initial_load_done begin_refill
    finish_refill fail_refill replace key_of contains add discard key_eq
still_running = refl

refused_twice : (add_ready_lease published.rt (key_of first) second).1 ≡ false
unfolding add_ready_lease key_of contains add key_eq
refused_twice = refl

Reach-IsConserved_example : IsConserved finished
Reach-IsConserved_example = Reach-IsConserved finished-Reach

acquire_lem_example :
    (loaded.rt.ready ≡ first ∷ (acquire loaded.rt).0.ready)
    × (contains (key_of first) loaded.held ≡ false)
    × (contains (key_of first) loaded.refilling ≡ false)
acquire_lem_example = acquire_lem first loaded-Reach hands_out

nothing_left_lem_example :
    (finished.rt.initial_load_done ≡ true)
    × (finished.held ≡ [])
    × (finished.refilling ≡ [])
    × ((k : Key) → contains k finished.rt.known ≡ false)
nothing_left_lem_example = nothing_left_lem finished-Reach nothing_after still_running
