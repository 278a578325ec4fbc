-- ===== src/Common.antt =====
-- include/ghex/common: coordinates.
pub mod Coordinate
