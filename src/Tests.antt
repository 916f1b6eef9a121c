-- ===== src/Tests.antt =====
-- Runs of the definitions on concrete inputs.
pub mod Numbers
pub mod Protocol
pub mod Transport
pub mod Simulation
pub mod Replication
