-- ===== src/Spatial.antt =====
-- The spatial index of src/spatial.
pub mod Morton
pub mod Grid
