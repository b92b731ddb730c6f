-- ===== src/Deadlock.antt =====
-- Simulator/utils/deadlock_analysis.c: the analysis that follows the messages of the tasks and
-- looks for a deadlock at each one that blocks.
pub mod Analysis
pub mod Crossed
pub mod Queries
pub mod Safety
mod Tests
