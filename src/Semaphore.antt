-- ===== src/Semaphore.antt =====
-- Simulator/model/semaphore.c: the semaphores of the tasks.
pub mod Base
pub mod Balance
pub mod Waking
pub mod Start
mod Tests
