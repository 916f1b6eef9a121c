-- ===== src/Core.antt =====
-- src/core: what every component shares.
pub mod Sequence
pub mod Float
pub mod Vector
