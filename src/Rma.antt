-- ===== src/Rma.antt =====
-- Simulator/model/memory.c: the locks of windows in one-sided communication.
pub mod Locks
pub mod Exclusion
mod Tests
