-- ===== src/Graph.antt =====
-- Simulator/utils/graph.c: the graph of the dependencies between the tasks, which the deadlock
-- analysis keeps.
pub mod Act
pub mod Base
pub mod Search
pub mod Order
pub mod Update
pub mod Held
pub mod Lookup
pub mod Along
pub mod Visit
pub mod Cycle
mod Tests
