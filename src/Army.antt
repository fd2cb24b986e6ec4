-- ===== src/Army.antt =====
-- src/citadel/services/army: the job queue, the forge of atomic tasks and the worker pool.
pub mod Queue
pub mod Forge
pub mod Pool
