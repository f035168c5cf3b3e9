-- ===== src/Rl.antt =====
-- rl/: the training side, which reads the recorded trajectories.
pub mod Buffer
