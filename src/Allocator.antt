-- ===== src/Allocator.antt =====
-- include/ghex/allocator: the memory of message buffers.
pub mod Pool
