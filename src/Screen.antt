-- ===== src/Screen.antt =====
-- lib/Screen.C and include/GyotoScreen.h: the sets of pixels and directions that a ray-tracing
-- call walks through.
pub mod Coord1d
pub mod Coord2d
