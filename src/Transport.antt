-- ===== src/Transport.antt =====
-- include/ghex/transport_layer: callbacks in flight, and the thread barrier.
pub mod CallbackQueue
pub mod Barrier
