-- ===== src/Lib.antt =====
-- Verification of SAfactory, a factory of agent trajectories: environments run in containers, agents
-- talk to language models through a gateway that records each step, a manager keeps a pool of warmed
-- instances busy, and the recorded trajectories are evaluated and used for training.
--
-- A request at the gateway is resolved to its session's binding (session_resolver.py), admitted or
-- refused (admission_control.py), and given a lease on a model's route (llm_router.py); when it is
-- done the lease and the admission are given back. On the other side the workers of a run take
-- leases on agent instances from a pool (simulation_lease_pool.py), and a circuit breaker stops the
-- scheduling when too many episodes fail (simulation_worker.py). The trainer polls finished steps in
-- groups (buffer_server.py).
--
-- What models what:
--   Base: tests, lists, Python's dicts and sets as lists in insertion order.
--   Data/Upserts: core/data_manager/upsert_batcher.py, batches of complete rows.
--   Data/Environments: the table of environments in core/data_manager/strategy/sqlite_strategy_impl.py
--     and core/data_manager/manager.py.
--   Data/WriteBuffer: core/data_manager/write_buffer.py; Flush holds the flushes, and Steps the
--     states that are reached. The mapper and its database are parameters.
--   Evaluator/RewardTarget: evaluator/trajectory_policy.py, the row that a reward is written to.
--   Evaluator/RewardCommit: evaluator/reward_committer.py, the search for this row.
--   Gateway/Binding: gateway/models.py, the binding of a session and its methods.
--   Gateway/Admission: gateway/admission_control.py, acquire_request and release.
--   Gateway/Sessions: gateway/session_resolver.py, the bindings of all sessions.
--   Gateway/Router: gateway/llm_router.py; Registration holds the dynamic routes, Keys the rotation
--     of API keys, Start the router that a configuration gives, Pending the hold of a registration.
--   Manager/LeaseRuntime: manager/simulation_lease_pool.py, _LeaseRuntimeState.
--   Manager/LeasePool: the rest of that file, the pool around the queue of leases.
--   Manager/RunSummary: manager/simulation_worker.py, the summary of a run.
--   Manager/CircuitBreaker: manager/simulation_worker.py, _SimulationCircuitBreaker.
--   Manager/Repository: manager/repository.py, the rows that are read in pages and reserved.
--   Manager/ActorPool: manager/actor_pool.py, the instances of a pool and their allocations.
--   Manager/BindingPlan: manager/binding_plan.py, the images of the environments.
--   Manager/ResumeCleanup: manager/resume_cleanup.py, the sessions whose results are removed.
--   Rl/Buffer: rl/buffer_server.py, the polling of finished steps and their grouping, with the query
--     of core/data_manager/strategy/sqlite_strategy_impl.py.
--
-- A method under an asyncio lock is one step: a function from the state to the new state and the
-- answer. Exceptions are answers. Clock readings, random choices and fresh ids are arguments. A
-- mutable object that two parts share, such as a binding, is passed in and handed back. Counters
-- are natural numbers with a subtraction that stops at 0, where the source takes max(0, n - 1) or
-- guards the subtraction; the router's counters are subtracted without a guard in the source, and
-- stay equal to the number of leases, so that they never fall below 0 there either. The loop that
-- cuts a bucket into groups runs on fuel, one more than the items of the bucket: a size above 0
-- takes an item at least in each round. The loop of the upsert batcher takes a request in each
-- round, and its fuel is more than the requests. The loop of the repository that reserves rows
-- reserves one at least in each round that goes on, and its fuel is the rows asked for; the rounds of
-- waiting have as many rounds as their fuel, and end when the deadline passes. The attempts of the
-- reward committer run on their number, as in the source. Every other loop runs over a list.
--
-- Not modelled: HTTP, databases, containers and subprocesses, logging and tracing; the float rates
-- of a route (mark_route_result); the views that only read a state; the data source of the
-- manager, the storage of trajectories, the evaluators, the writing of rewards, the removal of
-- files and remote jobs, and the rest of the training side; the parsing of JSON columns, whose
-- results are fields of the rows.
pub mod Base
pub mod Data
pub mod Evaluator
pub mod Gateway
pub mod Manager
pub mod Rl
