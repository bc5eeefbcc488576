-- ===== src/Examples.antt =====
-- Concrete runs of the theorems: a small gateway with three polls of two slaves and one write.
pub mod Data
pub mod Ranges
pub mod Queueing
pub mod Scheduling
pub mod Executing
pub mod Converting
pub mod Running
pub mod Objects
pub mod Mapped
pub mod Broker
