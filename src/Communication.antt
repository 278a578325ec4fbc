-- ===== src/Communication.antt =====
-- include/ghex/communication_object_2.hpp and include/ghex/packer.hpp: the exchange of halo data.
pub mod Memory
pub mod Packing
pub mod Buffers
pub mod Pattern
pub mod Object
