-- ===== src/Rma.antt =====
-- include/ghex/rma: remote memory access.
pub mod AccessGuard
