-- ===== src/Structured/Regular.antt =====
-- include/ghex/structured/regular: regular (box shaped) domains.
pub mod HaloGenerator
