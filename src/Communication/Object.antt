-- ===== src/Communication/Object.antt =====
-- include/ghex/communication_object_2.hpp: the communication object with one kind of memory, from
-- `exchange` to `wait`. The loops over one buffer's parts are those of include/ghex/packer.hpp.
-- What arrives, and in which order, is the communicator's.
pub mod TagMap
pub mod Session
pub mod Steps
pub mod Exchange
pub mod Delivery
pub mod Apart
use ghex.Base.{
  ℕ, ◌+◌, Bool, true, false, List, [], ◌∷◌, ◌++◌, map, Option, none, some, if◌then◌else◌, ltb,
}
use ghex.Base.OrderedMap.{lookup, upsert}
use ghex.Communication.Memory.{Memory}
use ghex.Communication.Packing.{Packing}
use ghex.Communication.Pattern.{BufferInfo}
use ghex.Communication.Buffers.{
  Buffer, BufferMap, DomainIdPair, less, no_bytes, allocate, pack_infos, unpack_infos,
}

-- A receive that is posted for a buffer: the hook, by the keys of the two maps, and the arguments of
-- `comm.recv`.
pub record Request : Type 0 where
  pub device_id : ℕ
  pub hook : DomainIdPair
  pub address : ℕ
  pub tag : ℕ
  pub size : ℕ

-- The arguments of `comm.send`.
pub record Message : Type 0 where
  pub address : ℕ
  pub tag : ℕ
  pub size : ℕ
  pub bytes : Memory

-- The maps of all devices.
abbrev pub DeviceMap : Type 0 → Type 0 → Type 0
DeviceMap Field Container = List (ℕ × BufferMap Field Container)

pub record CommunicationObject (Field Container : Type 0) : Type 0 where
  pub valid : Bool
  pub send_memory : DeviceMap Field Container
  pub recv_memory : DeviceMap Field Container
  pub recv_futures : List Request
  pub send_futures : List Message

unfoldable pub make_communication_object :
    {Field Container : Type 0} → CommunicationObject Field Container
make_communication_object = record {
  valid = false;
  send_memory = [];
  recv_memory = [];
  recv_futures = [];
  send_futures = [];
}

-- `pat_ptr_map` and `max_tag` after the containers of the fields, one after another, where
-- `max_tag_of` gives the maximum tag that a container records.
unfoldable pub tag_map : (ℕ → ℕ) → List ℕ → List (ℕ × ℕ) → ℕ → List (ℕ × ℕ) × ℕ
unfolding lookup upsert
tag_map max_tag_of [] pat_ptr_map max_tag = (pat_ptr_map, max_tag)
tag_map max_tag_of (p ∷ ptrs) pat_ptr_map max_tag =
    tag_map max_tag_of ptrs (upsert ltb p max_tag (λ t. t) pat_ptr_map)
      (elim (lookup ltb p pat_ptr_map) [ none ↦ max_tag + (max_tag_of p + 1) | some t ↦ max_tag ])

-- `pat_ptr_map[ptr]`
unfoldable pub tag_offset : List (ℕ × ℕ) → ℕ → ℕ
unfolding lookup
tag_offset pat_ptr_map p = elim (lookup ltb p pat_ptr_map) [ none ↦ 0 | some t ↦ t ]

module _ {Field Container : Type 0} (packing : Packing Field Container) where
  abbrev pub Object : Type 0
  Object = CommunicationObject Field Container

  -- `memory[device_id]`, changed.
  unfoldable pub at_device :
      ℕ
      → (BufferMap Field Container → BufferMap Field Container)
      → DeviceMap Field Container
      → DeviceMap Field Container
  unfolding upsert
  at_device d g memory = upsert ltb d (g []) g memory

  -- The call of `allocate` for one field, on the maps to receive and to send.
  unfoldable pub allocate_field : List (ℕ × ℕ) → BufferInfo Field Container → Object → Object
  unfolding allocate at_device tag_offset
  allocate_field pat_ptr_map bi co =
      let offset = tag_offset pat_ptr_map bi.pattern.container in
      record co {
        recv_memory =
            at_device bi.device_id
              (allocate packing true bi.field (packing.domain_id bi.field) offset
                bi.pattern.recv_halos)
              co.recv_memory;
        send_memory =
            at_device bi.device_id
              (allocate packing false bi.field (packing.domain_id bi.field) offset
                bi.pattern.send_halos)
              co.send_memory;
      }

  unfoldable pub allocate_fields :
      List (ℕ × ℕ) → List (BufferInfo Field Container) → Object → Object
  unfolding allocate_field
  allocate_fields pat_ptr_map [] co = co
  allocate_fields pat_ptr_map (bi ∷ bis) co =
      allocate_fields pat_ptr_map bis (allocate_field pat_ptr_map bi co)

  -- `exchange_impl`, which throws while an exchange is under way.
  unfoldable pub exchange_impl :
      (ℕ → ℕ) → List (BufferInfo Field Container) → Object → Option Object
  unfolding allocate_fields tag_map
  exchange_impl max_tag_of bis co =
      if co.valid
      then none
      else some (
          allocate_fields (tag_map max_tag_of (map (λ bi. bi.pattern.container) bis) [] 0).0 bis
            (record co { valid = true }))

  -- `post_recvs`: the loops over the buffers of a device and over the devices.
  unfoldable pub post_buffers : ℕ → BufferMap Field Container → List Request
  post_buffers d [] = []
  post_buffers d ((p, b) ∷ m) =
      let rest = post_buffers d m in
      if ltb 0 b.size
      then record { device_id = d; hook = p; address = b.address; tag = b.tag; size = b.size }
        ∷ rest
      else rest

  unfoldable pub post_devices : DeviceMap Field Container → List Request
  unfolding post_buffers
  post_devices [] = []
  post_devices ((d, m) ∷ ms) = post_buffers d m ++ post_devices ms

  unfoldable pub post_recvs : Object → Object
  unfolding post_devices
  post_recvs co = record co { recv_futures = co.recv_futures ++ post_devices co.recv_memory }

  -- `packer::pack`: the buffers are filled and sent.
  unfoldable pub pack_buffer : Memory → Buffer Field Container → Buffer Field Container
  unfolding pack_infos
  pack_buffer values b =
      if ltb 0 b.size
      then record b { buffer = pack_infos packing values b.field_infos b.buffer }
      else b

  unfoldable pub send_buffers : BufferMap Field Container → List Message
  send_buffers [] = []
  send_buffers ((p, b) ∷ m) =
      let rest = send_buffers m in
      if ltb 0 b.size
      then record { address = b.address; tag = b.tag; size = b.size; bytes = b.buffer } ∷ rest
      else rest

  unfoldable pub send_devices : DeviceMap Field Container → List Message
  unfolding send_buffers
  send_devices [] = []
  send_devices ((d, m) ∷ ms) = send_buffers m ++ send_devices ms

  -- A change of every buffer.
  unfoldable pub each_buffer :
      (Buffer Field Container → Buffer Field Container)
      → DeviceMap Field Container
      → DeviceMap Field Container
  each_buffer g ms = map (λ m. (m.0, map (λ e. (e.0, g e.1)) m.1)) ms

  unfoldable pub pack : Memory → Object → Object
  unfolding send_devices each_buffer pack_buffer
  pack values co =
      let packed = each_buffer (pack_buffer values) co.send_memory in
      record co { send_memory = packed; send_futures = co.send_futures ++ send_devices packed }

  unfoldable pub exchange :
      (ℕ → ℕ) → List (BufferInfo Field Container) → Memory → Object → Option Object
  unfolding exchange_impl post_recvs pack
  exchange max_tag_of bis values co = elim (exchange_impl max_tag_of bis co) [
    | none ↦ none
    | some co' ↦ some (pack values (post_recvs co'))
  ]

  unfoldable pub clear_buffer : Buffer Field Container → Buffer Field Container
  clear_buffer b = record b { buffer = no_bytes; size = 0; field_infos = [] }

  unfoldable pub clear : Object → Object
  unfolding each_buffer clear_buffer
  clear co = record {
    valid = false;
    send_memory = each_buffer clear_buffer co.send_memory;
    recv_memory = each_buffer clear_buffer co.recv_memory;
    recv_futures = [];
    send_futures = [];
  }

  abbrev pub in_device :
      DomainIdPair → Option (BufferMap Field Container) → Option (Buffer Field Container)
  in_device p none = none
  in_device p (some m) = lookup less p m

  unfoldable pub buffer_at :
      ℕ → DomainIdPair → DeviceMap Field Container → Option (Buffer Field Container)
  unfolding lookup less
  buffer_at d p ms = in_device p (lookup ltb d ms)

  -- `packer::unpack`: the messages in the order in which they arrive, each with its request.
  unfoldable pub unpack : DeviceMap Field Container → List (Request × Memory) → Memory → Memory
  unfolding buffer_at unpack_infos
  unpack ms [] values = values
  unpack ms ((r, bytes) ∷ arrived) values =
      unpack ms arrived (elim (buffer_at r.device_id r.hook ms) [
        | none ↦ values
        | some b ↦ unpack_infos packing bytes b.field_infos values
      ])

  unfoldable pub wait : List (Request × Memory) → Object → Memory → Object × Memory
  unfolding clear unpack
  wait arrived co values =
      if co.valid then (clear co, unpack co.recv_memory arrived values) else (co, values)
