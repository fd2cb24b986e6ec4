-- ===== src/Execute.antt =====
-- src/citadel/services/execute: policy, arbitration, executors and the verdict ledger.
pub mod Paths
pub mod Blueprint
pub mod Coding
pub mod Cloud
pub mod Local
pub mod Runner
pub mod Optimizer
pub mod Policy
pub mod Verdict
pub mod Arbitrator
pub mod Orchestrate
pub mod Sequencer
