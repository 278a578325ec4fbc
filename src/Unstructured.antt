-- ===== src/Unstructured.antt =====
-- include/ghex/unstructured/user_concepts.hpp and include/ghex/unstructured/pattern.hpp: domains, halos,
-- fields and patterns on unstructured grids.
pub mod Data
pub mod Domain
pub mod Pattern
