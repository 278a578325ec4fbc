-- ===== src/Util.antt =====
-- include/ghex/util: index arithmetic of a hierarchical, regular domain decomposition.
pub mod DimsMap
pub mod ResourceLayout
pub mod Decomposition
