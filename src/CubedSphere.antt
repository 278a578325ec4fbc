-- ===== src/CubedSphere.antt =====
-- include/ghex/structured/cubed_sphere: the six tiles of a cubed sphere and their halos.
pub mod Transform
mod Tables
pub mod HaloGenerator
pub mod DomainId
