-- ===== src/Ports.antt =====
-- Simulator/model/ports.c: the ports, on which a sender and a receiver meet.
pub mod Base
pub mod Transfer
pub mod Operations
pub mod Invariant
pub mod Rendezvous
pub mod Deletion
pub mod Creation
mod Tests
