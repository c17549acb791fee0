-- ===== src/Scenery.antt =====
-- lib/Scenery.C: how a scene is ray-traced pixel by pixel.
pub mod Mpi
pub mod Quantities
pub mod Worker
