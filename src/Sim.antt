-- ===== src/Sim.antt =====
-- src/sim: the simulation.
pub mod Movement
pub mod Region
pub mod Entities
pub mod World
