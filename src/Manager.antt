-- ===== src/Manager.antt =====
-- manager/: the scheduling of simulated episodes over a pool of agent instances.
pub mod CircuitBreaker
pub mod Keys
pub mod LeaseRuntime
pub mod Repository
pub mod BindingPlan
pub mod LeasePool
pub mod RunSummary
pub mod ActorPool
pub mod ResumeCleanup
