-- ===== src/Evaluator.antt =====
-- evaluator/: the rewards of recorded trajectories.
pub mod RewardTarget
pub mod RewardCommit
