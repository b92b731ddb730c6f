-- ===== src/Links.antt =====
-- Simulator/model/links.c: the links of tasks, machines, dedicated connections and ports.
pub mod Base
pub mod Acquire
pub mod Release
pub mod Conserved
pub mod Moves
pub mod Pairs
pub mod Granted
pub mod Taking
pub mod Sides
pub mod Jumps
pub mod Memory
pub mod Waking
pub mod Ports
mod Tests
mod PortTests
