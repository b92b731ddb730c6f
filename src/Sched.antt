-- ===== src/Sched.antt =====
-- Simulator/sched: the round robin policy, and the start of threads on the CPUs of a node.
pub mod RoundRobin
pub mod Slices
pub mod Dispatch
pub mod Selection
pub mod Running
mod Tests
mod RunTests
