-- ===== src/Communication/Object/Exchange.antt =====
-- include/ghex/communication_object_2.hpp and include/ghex/packer.hpp: an exchange between two objects.
use native.Mathlib.Decide.{ℕ_discrete}
use ghex.Base.{
  ℕ, ◌≡◌, ◌≢◌, refl, sym, ap, ◌∙◌, subst, Bool, true, false, List, [], ◌∷◌, ◌++◌, Option, none,
  some, ltb, ◌==◌, arith, if◌then◌else◌,
}
use ghex.Base.OrderedMap.{lookup, entry, lookup-upsert_self, lookup-upsert_ne}
use ghex.Communication.Memory.{}
use ghex.Communication.Packing.{Packing}
use ghex.Communication.Pattern.{BufferInfo, Pattern}
use ghex.Communication.Buffers.{BufferMap, ExtendedDomainId, DomainIdPair, allocate}
use ghex.Communication.Buffers.Content.{
  Part, parts_of, add_parts, lookup-allocate, add_parts-append,
}
use ghex.Communication.Buffers.Peers.{}
use ghex.Communication.Buffers.Transfer.{}
use ghex.Communication.Object.{
  Object, DeviceMap, in_device, buffer_at, at_device, allocate_field, allocate_fields, tag_offset,
}
use ghex.Base.NatMap.{ltb-StrictOrder}

module _ {Field Container : Type 0} (packing : Packing Field Container) where
  -- The parts for a device and a pair of the halos of one direction.
  abbrev halos_of : Bool → Pattern Container → List (ExtendedDomainId × Container)
  halos_of true p = p.recv_halos
  halos_of false p = p.send_halos

  unfoldable pub field_parts :
      ℕ
      → DomainIdPair
      → Bool
      → List (ℕ × ℕ)
      → BufferInfo Field Container
      → List (Part Field Container)
  field_parts d p receive tags bi =
      if bi.device_id == d
      then parts_of packing p receive bi.field (packing.domain_id bi.field)
          (tag_offset tags bi.pattern.container) (halos_of receive bi.pattern)
      else []

  unfoldable pub exchange_parts :
      ℕ
      → DomainIdPair
      → Bool
      → List (ℕ × ℕ)
      → List (BufferInfo Field Container)
      → List (Part Field Container)
  exchange_parts d p receive tags [] = []
  exchange_parts d p receive tags (bi ∷ bis) =
      field_parts d p receive tags bi ++ exchange_parts d p receive tags bis

  abbrev memory_of : Bool → Object packing → DeviceMap Field Container
  memory_of true co = co.recv_memory
  memory_of false co = co.send_memory

  in_device-entry :
      (p : DomainIdPair) (receive : Bool) (f : Field) (dom offset : ℕ)
      (halos : List (ExtendedDomainId × Container)) (o : Option (BufferMap Field Container))
      → in_device packing p (
          entry ltb
            (allocate packing receive f dom offset halos [])
            (allocate packing receive f dom offset halos)
            o)
        ≡ add_parts packing (parts_of packing p receive f dom offset halos) (in_device packing p o)
  unfolding lookup
  in_device-entry p receive f dom offset halos none =
      lookup-allocate packing p receive f dom offset halos []
  in_device-entry p receive f dom offset halos (some m) =
      lookup-allocate packing p receive f dom offset halos m

  buffer_at_self :
      (d : ℕ) (p : DomainIdPair) (receive : Bool) (f : Field) (dom offset : ℕ)
      (halos : List (ExtendedDomainId × Container)) (ms : DeviceMap Field Container)
      → buffer_at packing d p (at_device packing d (allocate packing receive f dom offset halos) ms)
        ≡ add_parts packing
            (parts_of packing p receive f dom offset halos)
            (buffer_at packing d p ms)
  unfolding buffer_at at_device
  buffer_at_self d p receive f dom offset halos ms =
      ap (in_device packing p) (
        lookup-upsert_self ltb ltb-StrictOrder d (allocate packing receive f dom offset halos [])
          (allocate packing receive f dom offset halos) ms)
      ∙ in_device-entry p receive f dom offset halos (lookup ltb d ms)

  buffer_at-other :
      (d q : ℕ) (p : DomainIdPair) (g : BufferMap Field Container → BufferMap Field Container)
      (ms : DeviceMap Field Container)
      → d ≢ q
      → buffer_at packing d p (at_device packing q g ms) ≡ buffer_at packing d p ms
  unfolding buffer_at at_device
  buffer_at-other d q p g ms ne =
      ap (in_device packing p) (lookup-upsert_ne ltb ltb-StrictOrder q d (g []) g ms ne)

  buffer_at-at_device :
      (d q : ℕ) (p : DomainIdPair) (receive : Bool) (f : Field) (dom offset : ℕ)
      (halos : List (ExtendedDomainId × Container)) (ms : DeviceMap Field Container)
      → buffer_at packing d p (at_device packing q (allocate packing receive f dom offset halos) ms)
        ≡ add_parts packing
            (if q == d then parts_of packing p receive f dom offset halos else [])
            (buffer_at packing d p ms)
  unfolding add_parts
  buffer_at-at_device d q p receive f dom offset halos ms = elim (ℕ_discrete d q) [
    | yes e ↦
        let same : (q == d) ≡ true = ground (arith, e) in
        rw same (
          subst
            (λ k.
              buffer_at packing d p
                (at_device packing k (allocate packing receive f dom offset halos) ms)
              ≡ add_parts packing (parts_of packing p receive f dom offset halos)
                  (buffer_at packing d p ms))
            e (buffer_at_self d p receive f dom offset halos ms))
    | no n ↦
        let other : (q == d) ≡ false = ground (arith, n) in
        rw other (buffer_at-other d q p (allocate packing receive f dom offset halos) ms n)
  ]

  buffer_at-allocate_field :
      (d : ℕ) (p : DomainIdPair) (receive : Bool) (tags : List (ℕ × ℕ))
      (bi : BufferInfo Field Container) (co : Object packing)
      → buffer_at packing d p (memory_of receive (allocate_field packing tags bi co))
        ≡ add_parts packing
            (field_parts d p receive tags bi)
            (buffer_at packing d p (memory_of receive co))
  unfolding allocate_field field_parts
  buffer_at-allocate_field d p true tags bi co =
      buffer_at-at_device d bi.device_id p true bi.field _ _ bi.pattern.recv_halos co.recv_memory
  buffer_at-allocate_field d p false tags bi co =
      buffer_at-at_device d bi.device_id p false bi.field _ _ bi.pattern.send_halos co.send_memory

  -- Over all fields of an exchange: the buffer of each device and pair of domains, in the memory to
  -- send as in that to receive, is changed by its own parts alone, in the order of the fields.
  pub buffer_at-allocate_fields :
      (d : ℕ) (p : DomainIdPair) (receive : Bool) (tags : List (ℕ × ℕ))
      (bis : List (BufferInfo Field Container)) (co : Object packing)
      → buffer_at packing d p (memory_of receive (allocate_fields packing tags bis co))
        ≡ add_parts packing
            (exchange_parts d p receive tags bis)
            (buffer_at packing d p (memory_of receive co))
  unfolding allocate_fields exchange_parts add_parts
  buffer_at-allocate_fields d p receive tags [] co = refl
  buffer_at-allocate_fields d p receive tags (bi ∷ bis) co =
      buffer_at-allocate_fields d p receive tags bis (allocate_field packing tags bi co)
      ∙ ap (add_parts packing (exchange_parts d p receive tags bis))
          (buffer_at-allocate_field d p receive tags bi co)
      ∙ sym (
          add_parts-append packing (field_parts d p receive tags bi)
            (exchange_parts d p receive tags bis) (buffer_at packing d p (memory_of receive co)))
