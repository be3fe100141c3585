-- ===== src/Execution.antt =====
-- execution/: the executors.
pub mod Executor
pub mod Join
pub mod Aggregate
pub mod Projection
pub mod SeqScan
