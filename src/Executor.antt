-- ===== src/Executor.antt =====
-- crates/rustafari-executor: sessions and the execution of logical plans.
pub mod State
pub mod Predicate
pub mod Aggregate
pub mod Read
pub mod Group
pub mod Write
pub mod Plan
pub mod SqlExecutor
pub mod Arrow
pub mod Consistency
