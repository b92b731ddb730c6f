-- ===== src/Events.antt =====
-- Simulator/sched/events.c.
pub mod Timers
pub mod Manager
pub mod Invariant
pub mod Extract
pub mod Run
mod Tests
