-- ===== src/Comm.antt =====
-- Simulator/model/communic.c: the matching of messages with receives.
pub mod Base
pub mod Posting
pub mod Spec
pub mod Listed
pub mod Boxes
pub mod Order
pub mod Refinement
pub mod Arrivals
pub mod Rendezvous
mod Tests
