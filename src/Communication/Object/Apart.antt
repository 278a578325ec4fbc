-- ===== src/Communication/Object/Apart.antt =====
-- include/ghex/communication_object_2.hpp: the parts of the buffers that an object ever has.
use ghex.Base.{ℕ, ◌+◌, ◌<◌, ◌≤◌, ◌≡◌, ◌⊎◌, some, get_elem?, inl, inr}
use ghex.Communication.Packing.{Packing}
use ghex.Communication.Buffers.{FieldInfo, Buffer, DomainIdPair}
use ghex.Communication.Buffers.Layout.{Aligned, Inside, bytes_of, IsValid-apart}
use ghex.Communication.Buffers.Layout
use ghex.Communication.Object.{Object, make_communication_object, buffer_at}
use ghex.Communication.Object.Steps.{Steps, Steps-IsValid}
use ghex.Communication.Object.Delivery.{buffer_at-AllBuffers}

module _ {Field Container : Type 0} (packing : Packing Field Container) where
  -- The object has the buffer, to send or to receive, under a device and a pair of domains.
  abbrev pub HasBuffer : Object packing → Buffer Field Container → Type 0
  HasBuffer co b =
      (d : ℕ) × (p : DomainIdPair) × ((buffer_at packing d p co.send_memory ≡ some b)
        ⊎ (buffer_at packing d p co.recv_memory ≡ some b))

  -- Whatever sequence of exchanges and waits is called on a new communication object: of the parts of
  -- any buffer that it then has, to send or to receive, whose value types have positive alignments,
  -- any two lie within the size of the buffer, at offsets that are multiples of the alignments of
  -- their value types, and the one that is earlier in the list ends where the other starts or before.
  pub parts_apart :
      (co : Object packing) (b : Buffer Field Container) (k l : ℕ) (i j : FieldInfo Field Container)
      → Steps packing make_communication_object co
      → HasBuffer co b
      → Aligned packing b.field_infos
      → k < l
      → get_elem? b.field_infos k ≡ some i
      → get_elem? b.field_infos l ≡ some j
      → Inside packing 0 b.size i
        × Inside packing 0 b.size j
        × (i.offset + bytes_of packing i ≤ j.offset)
  parts_apart co b k l i j steps has al = IsValid-apart packing b k l i j al (valid has)
    where
      valid : HasBuffer co b → Layout.IsValid packing b
      valid (d, p, inl e) =
          buffer_at-AllBuffers packing (Layout.IsValid packing) d p co.send_memory b
            (Steps-IsValid packing co steps).0.0 e
      valid (d, p, inr e) =
          buffer_at-AllBuffers packing (Layout.IsValid packing) d p co.recv_memory b
            (Steps-IsValid packing co steps).0.1 e
