-- ===== src/Astrobj.antt =====
-- Gyoto::Astrobj: the objects of a scenery.
pub mod Complex
pub mod Properties
