-- ===== src/Lib.antt =====
-- Verification of GHEX, a library for halo exchange on structured and unstructured grids.
--
-- A domain decomposition is described to the library by domains, each with the region that it owns.
-- A halo generator computes the regions around a domain that other domains own; a pattern matches
-- these regions with the domains that hold them; a communication object sends the data through a
-- transport layer, whose callback queue holds the operations in flight. The development models the
-- parts that compute and that keep state, and leaves MPI, UCX, CUDA and memory mappings aside.
--
-- Which file models which part (paths from the root of the repository):
--   Base and its children: shared names, Boolean tests, lists, digits of a number, signed integers
--     (the C++ type int, without overflow), arrays of a static size.
--   Common/Coordinate: include/ghex/common/coordinate.hpp, `coordinate`.
--   Structured/Space, Structured/Regular/HaloGenerator: include/ghex/structured/regular/
--     halo_generator.hpp and domain_descriptor.hpp. `generate` is operator(), put together from
--     `left`, `middle` and `right`, `compute_spaces`, `filter_used` and `wrap`; `intersect` has the
--     source's name. The four coordinate arrays of a box2 are kept as one array of spans.
--   Structured/Pattern: include/ghex/structured/pattern.hpp, the loops of `make_pattern_impl` on one
--     rank: `convert_halos`, `receive_halos`, `tag_patterns` and `recast`. The std::map of receive
--     halos is a list in the order of a parameter `less`.
--   Structured/Pattern/Domains, Exchange and Make: the rest of that function. Domains has the pattern,
--     the ids and the translation of receive halos to send halos (`translate_all`). Exchange has the
--     messages by which one rank tells another its send halos: `connect` is a round of the loop over
--     ranks at a rank that receives, with the typed messages of the rank that sends in their order; a
--     receive that meets another message is `none`, and so is a search past the end of a vector. Make
--     puts the steps together for all ranks at once (`make_pattern`), where all_gather returns what
--     the ranks have in the order of ranks. `global_first` and `global_last` of a pattern are none until
--     `set_globals` assigns them; it has no result where a rank has no domain, since the source then
--     reads the first element of an empty vector. Domain ids and addresses are numbers.
--   Communication/Memory, Communication/Packing: std::memcpy on bytes at addresses, and what a
--     communication object asks of a field descriptor, as a record of operations and laws.
--   Communication/Pattern: include/ghex/pattern.hpp and buffer_info.hpp, `pattern_container` and
--     `buffer_info`. A container is referred to by its address, a number.
--   Communication/Buffers: include/ghex/communication_object_2.hpp, `domain_id_pair`, `field_info`,
--     `buffer`, and `allocate` for one map of buffers (`allocate_halo` is the body of its loop), with
--     the loops of include/ghex/packer.hpp over one buffer. The callback of a field_info is the
--     field whose `pack` or `unpack` it calls.
--   Communication/Object: the object itself in communication_object_2.hpp. `tag_map` and
--     `allocate_fields` are the loops of `exchange_impl`; `exchange`, `post_recvs`, `pack`, `wait` and
--     `clear` have the source's names. A throw is `none`. A future to receive is the request with the
--     keys of its buffer, and `wait` is given the messages in the order in which they arrive.
--   Unstructured/Domain, Unstructured/Data: include/ghex/unstructured/user_concepts.hpp, the domain
--     descriptor (`set_halo_vertices`), the halo generator (`generate` is operator()) and the data
--     descriptor in host memory; its child Elements fills the record Packing.
--   Unstructured/Pattern: include/ghex/unstructured/pattern.hpp, make_pattern_impl without hints, one
--     local domain against one other rank: `send_rank` and `recv_rank` are the loops over the domains
--     of that rank, with `send_halo` and `recv_halo` inside.
--   Structured/FieldUtils: include/ghex/structured/field_utils.hpp, strides and coordinates, and the
--     loop nest `for_loop_pointer_arithmetic` of include/ghex/common/utils.hpp as the list of the
--     calls of its functor. Dimensions stand in the order of the layout.
--   Structured/RmaRange: include/ghex/structured/rma_range.hpp, the positions of a range of chunks and
--     the two functions `inc` (`inc` and `inc_by`); dimensions stand in the order of the layout.
--   CubedSphere/Transform: include/ghex/structured/cubed_sphere/transform.hpp, the tables of
--     neighbour tiles and of the transforms between them.
--   CubedSphere/HaloGenerator: include/ghex/structured/cubed_sphere/halo_generator.hpp; `generate`
--     is operator(), with the two loops as `cut_region` and `cut`. Its child Meet has the
--     intersection with a domain. CubedSphere/DomainId: the ids in domain_descriptor.hpp of that
--     directory, and the order of ids with tags in include/ghex/structured/pattern.hpp.
--   Transport/CallbackQueue: include/ghex/transport_layer/callback_utils.hpp, `callback_queue` with
--     its operations `enqueue`, `progress_loop` and `cancel`. The states that requests share are a
--     store, and a request is an index of it. `test_any` is a parameter, since it is the transport's;
--     what the theorems ask of it is that it names a position of the queue.
--   Transport/Barrier: include/ghex/transport_layer/util/barrier.hpp, `barrier_t::operator()`, with
--     the atomic actions of the threads in any order, as a schedule gives it.
--   Rma/AccessGuard: include/ghex/rma/access_guard.hpp and rma/thread/access_guard.hpp, the epochs of
--     the owner of a resource and of its remote counterpart, as actions in any order.
--   Allocator/Pool: include/ghex/allocator/pool_allocator_adaptor.hpp, the pool of freed blocks,
--     with the functions `allocate` and `deallocate`. What the underlying allocator returns is a
--     parameter.
--   Util/DimsMap, Util/ResourceLayout, Util/Decomposition: distribution.hpp, resource_layout.hpp and
--     decomposition.hpp in include/ghex/util.
--   Tests: concrete runs of the models, and the theorems at concrete inputs.
--
-- Bounds and fuel. Integers are unbounded, so that sums and products of coordinates are taken not to
-- overflow; the decrement of the barrier's counter keeps its wrap-around on 64 bits. The loop of
-- `callback_queue::progress` runs on fuel; every round removes an element, so fuel beyond the length
-- of the queue is enough. The barrier's waiting loops are actions that leave the state as it is while
-- the condition fails.
--
-- What a message carries is taken from the sender's buffer at the time of the call, so a message that
-- is sent while the buffer changes is not modelled; receives that a callback of the communicator
-- unpacks, and the device variants, are left out.
--
-- Not modelled: the all-to-all exchange of unstructured patterns between ranks, the bulk communication object and
-- the one with in-place receives, the structured field descriptors, the transports over MPI and UCX,
-- the memory behind remote memory access, message buffers, and the adapters to other libraries. Callbacks are recorded
-- when they are called and do not call back into the queue. The unordered memory model of the
-- barrier's relaxed compare-exchange operations is left out: actions are taken to happen one after
-- another.
pub mod Base
pub mod Common
pub mod Structured
pub mod CubedSphere
pub mod Transport
pub mod Rma
pub mod Communication
pub mod Unstructured
pub mod Allocator
pub mod Util
pub mod Tests
