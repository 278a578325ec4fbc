-- ===== src/Communication/Buffers.antt =====
-- include/ghex/communication_object_2.hpp: the buffers of a communication object, `allocate`, which
-- lays the fields' data out in them, and the loops of include/ghex/packer.hpp over one buffer.
pub mod Order
pub mod Layout
pub mod Content
pub mod Transfer
pub mod Peers
use ghex.Base.{
  ℕ, zero, suc, ◌+◌, ◌-◌, ◌*◌, ◌/◌, Bool, true, false, List, [], ◌∷◌, ◌++◌, Option, none, some,
  if◌then◌else◌, ltb, ◌==◌,
}
use ghex.Base.OrderedMap.{upsert}
use ghex.Communication.Memory.{Memory}
use ghex.Communication.Packing.{Packing}

-- The remote side of a halo, a key of the pattern's maps.
pub record ExtendedDomainId : Type 0 where
  pub id : ℕ
  pub mpi_rank : ℕ
  pub address : ℕ
  pub tag : ℕ

pub record DomainIdPair : Type 0 where
  pub first_id : ℕ
  pub second_id : ℕ

-- `operator<`
unfoldable pub less : DomainIdPair → DomainIdPair → Bool
less a b =
    if ltb a.first_id b.first_id
    then true
    else if ltb b.first_id a.first_id
    then false
    else ltb a.second_id b.second_id

-- The callback is the field whose `pack` or `unpack` it calls.
pub record FieldInfo (Field Container : Type 0) : Type 0 where
  pub call_back : Field
  pub index_container : Container
  pub offset : ℕ

pub record Buffer (Field Container : Type 0) : Type 0 where
  pub address : ℕ
  pub tag : ℕ
  pub buffer : Memory
  pub size : ℕ
  pub field_infos : List (FieldInfo Field Container)

abbrev pub BufferMap : Type 0 → Type 0 → Type 0
BufferMap Field Container = List (DomainIdPair × Buffer Field Container)

-- The bytes of a new message, which nothing has written yet.
abbrev pub no_bytes : Memory
no_bytes a = 0

-- From `size` to the next multiple of the alignment.
unfoldable pub padding : ℕ → ℕ → ℕ
padding size align = (size + align - 1) / align * align - size

module _ {Field Container : Type 0} (packing : Packing Field Container) where
  -- The end of the loop body: the field's part comes after what the buffer holds.
  unfoldable pub push_info : Field → Container → ℕ → Buffer Field Container → Buffer Field Container
  unfolding padding
  push_info f c num_elements b =
      let pad = padding b.size (packing.align_of f) in
      record b {
        field_infos =
            b.field_infos
            ++ (record { call_back = f; index_container = c; offset = b.size + pad } ∷ []);
        size = b.size + (pad + num_elements * packing.size_of f);
      }

  -- A buffer that is new, and one that the last exchange has left empty.
  unfoldable pub new_buffer : ExtendedDomainId → ℕ → Buffer Field Container
  new_buffer id tag_offset = record {
    address = id.address;
    tag = id.tag + tag_offset;
    buffer = no_bytes;
    size = 0;
    field_infos = [];
  }

  unfoldable pub reuse_buffer :
      ExtendedDomainId → ℕ → Buffer Field Container → Buffer Field Container
  reuse_buffer id tag_offset b =
      if b.size == 0
      then record b { address = id.address; tag = id.tag + tag_offset; field_infos = [] }
      else b

  -- The domains are ordered by the direction of the message.
  unfoldable pub pair_of : Bool → ℕ → ℕ → DomainIdPair
  pair_of true my_dom_id remote = record { first_id = my_dom_id; second_id = remote }
  pair_of false my_dom_id remote = record { first_id = remote; second_id = my_dom_id }

  -- `allocate`: the body of the loop, and the loop over the halos of a pattern.
  unfoldable pub allocate_halo :
      Bool
      → Field
      → ℕ
      → ℕ
      → ExtendedDomainId × Container
      → BufferMap Field Container
      → BufferMap Field Container
  unfolding push_info new_buffer reuse_buffer pair_of upsert less
  allocate_halo receive f my_dom_id tag_offset (id, c) memory =
      let num_elements = packing.num_elements c * packing.num_components f in
      if ltb num_elements 1
      then memory
      else upsert less (pair_of receive my_dom_id id.id)
          (push_info f c num_elements (new_buffer id tag_offset))
          (λ b. push_info f c num_elements (reuse_buffer id tag_offset b)) memory

  unfoldable pub allocate :
      Bool
      → Field
      → ℕ
      → ℕ
      → List (ExtendedDomainId × Container)
      → BufferMap Field Container
      → BufferMap Field Container
  unfolding allocate_halo
  allocate receive f my_dom_id tag_offset [] memory = memory
  allocate receive f my_dom_id tag_offset (h ∷ halos) memory =
      allocate receive f my_dom_id tag_offset halos
        (allocate_halo receive f my_dom_id tag_offset h memory)

  -- The loops of `packer` over the parts of one buffer.
  unfoldable pub pack_infos : Memory → List (FieldInfo Field Container) → Memory → Memory
  pack_infos values [] buffer = buffer
  pack_infos values (i ∷ is) buffer =
      pack_infos values is (packing.pack i.call_back i.index_container values buffer i.offset)

  unfoldable pub unpack_infos : Memory → List (FieldInfo Field Container) → Memory → Memory
  unpack_infos bytes [] values = values
  unpack_infos bytes (i ∷ is) values =
      unpack_infos bytes is (packing.unpack i.call_back i.index_container values bytes i.offset)
