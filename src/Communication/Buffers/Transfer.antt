-- ===== src/Communication/Buffers/Transfer.antt =====
-- include/ghex/communication_object_2.hpp and include/ghex/packer.hpp: a buffer that is packed on one
-- side and unpacked on the other.
use ghex.Base.{ℕ, ◌+◌, ◌*◌, ◌<◌, ◌≡◌, refl, sym, ap, ap₂, ◌∙◌, List, [], ◌∷◌, arith, length}
use ghex.Communication.Memory.{Memory, gather, scatter, transfer}
use ghex.Communication.Memory.Transfer.{Agree, gather-below, scatter-Agree, scatter-gather}
use ghex.Communication.Packing.{Packing}
use ghex.Communication.Buffers.{FieldInfo, Buffer, pack_infos, unpack_infos}
use ghex.Communication.Buffers.Layout.{LaidOut, LaidOut-le, IsValid, bytes_of}

module _ {Field Container : Type 0} (packing : Packing Field Container) where
  abbrev pub Info : Type 0
  Info = FieldInfo Field Container

  abbrev pub elements_of : Info → List ℕ
  elements_of i = packing.elements i.call_back i.index_container

  -- A part of the buffer that is sent and one of the buffer that is received.
  abbrev pub Meet : Info → Info → Type 0
  Meet i j =
      (i.offset ≡ j.offset)
      × (packing.size_of i.call_back ≡ packing.size_of j.call_back)
      × (length (elements_of i) ≡ length (elements_of j))

  abbrev pub Match : List Info → List Info → Type 0
  Match [] [] = Unit
  Match [] (j ∷ js) = ⊥
  Match (i ∷ is) [] = ⊥
  Match (i ∷ is) (j ∷ js) = Meet i j × Match is js

  -- What an exchange means for the fields: each element of a part goes to the element at the same
  -- place of the part on the other side.
  abbrev pub transfer_infos : Memory → List Info → Memory → List Info → Memory
  transfer_infos from [] to js = to
  transfer_infos from (i ∷ is) to [] = to
  transfer_infos from (i ∷ is) to (j ∷ js) =
      transfer_infos from is
        (transfer (packing.size_of i.call_back) from (elements_of i) to (elements_of j)) js

  pack_infos-below :
      (start : ℕ) (is : List Info) (end : ℕ) (from b : Memory) (a : ℕ)
      → LaidOut packing start is end
      → a < start
      → pack_infos packing from is b a ≡ b a
  unfolding pack_infos
  pack_infos-below start [] end from b a h lt = refl
  pack_infos-below start (i ∷ is) end from b a h lt =
      pack_infos-below (i.offset + bytes_of packing i) is end from _ a h.1 (omega (arith, h.0))
      ∙ ap (λ m. m a) (packing.pack-gather i.call_back i.index_container from b i.offset)
      ∙ gather-below (packing.size_of i.call_back) from (elements_of i) b i.offset a
          (omega (arith, h.0))

  unpack_info-Agree :
      (i : Info) (b c to : Memory)
      → Agree i.offset (bytes_of packing i) b c
      → packing.unpack i.call_back i.index_container to b i.offset
        ≡ packing.unpack i.call_back i.index_container to c i.offset
  unpack_info-Agree i b c to h =
      packing.unpack-scatter i.call_back i.index_container to b i.offset
      ∙ scatter-Agree (packing.size_of i.call_back) to (elements_of i) b c i.offset
          (λ a lo hi. h a lo (omega (arith, hi, bytes)))
      ∙ sym (packing.unpack-scatter i.call_back i.index_container to c i.offset)
    where
      bytes : length (elements_of i) * packing.size_of i.call_back ≡ bytes_of packing i
      bytes =
          ap (λ n. n * packing.size_of i.call_back)
            (packing.length-elements i.call_back i.index_container)

  unpack_infos-Agree :
      (start : ℕ) (is : List Info) (end : ℕ) (b c to : Memory)
      → LaidOut packing start is end
      → ((a : ℕ) → a < end → b a ≡ c a)
      → unpack_infos packing b is to ≡ unpack_infos packing c is to
  unfolding unpack_infos
  unpack_infos-Agree start [] end b c to h e = refl
  unpack_infos-Agree start (i ∷ is) end b c to h e =
      let le = LaidOut-le packing (i.offset + bytes_of packing i) is end h.1 in
      ap (unpack_infos packing b is)
        (unpack_info-Agree i b c to (λ a lo hi. e a (omega (arith, le))))
      ∙ unpack_infos-Agree (i.offset + bytes_of packing i) is end b c _ h.1 e

  -- One part, packed into a buffer whose later parts do not reach it.
  unpack-pack :
      (i j : Info) (from to b whole : Memory)
      → Meet i j
      → Agree i.offset
          (bytes_of packing i)
          whole
          (packing.pack i.call_back i.index_container from b i.offset)
      → packing.unpack j.call_back j.index_container to whole j.offset
        ≡ transfer (packing.size_of i.call_back) from (elements_of i) to (elements_of j)
  unpack-pack i j from to b whole (offsets, sizes, counts) h =
      packing.unpack-scatter j.call_back j.index_container to whole j.offset
      ∙ ap₂ (λ s o. scatter s to (elements_of j) whole o) (sym sizes) (sym offsets)
      ∙ scatter-Agree (packing.size_of i.call_back) to (elements_of j) whole packed i.offset
          (λ a lo hi. h a lo (omega (arith, hi, bytes)) ∙ ap (λ m. m a) packs)
      ∙ scatter-gather (packing.size_of i.call_back) from (elements_of i) to (elements_of j) b
          i.offset counts
    where
      packed : Memory
      packed = gather (packing.size_of i.call_back) from (elements_of i) b i.offset

      packs : packing.pack i.call_back i.index_container from b i.offset ≡ packed
      packs = packing.pack-gather i.call_back i.index_container from b i.offset

      bytes : length (elements_of j) * packing.size_of i.call_back ≡ bytes_of packing i
      bytes =
          ap (λ n. n * packing.size_of i.call_back)
            (sym counts ∙ packing.length-elements i.call_back i.index_container)

  unpack-pack_all :
      (start : ℕ) (is js : List Info) (end : ℕ) (from to b : Memory)
      → LaidOut packing start is end
      → Match is js
      → unpack_infos packing (pack_infos packing from is b) js to ≡ transfer_infos from is to js
  unfolding pack_infos unpack_infos
  unpack-pack_all start [] [] end from to b h m = refl
  unpack-pack_all start [] (j ∷ js) end from to b h m = absurd m
  unpack-pack_all start (i ∷ is) [] end from to b h m = absurd m
  unpack-pack_all start (i ∷ is) (j ∷ js) end from to b h (meet, m) =
      ap (unpack_infos packing whole js) (
        unpack-pack i j from to b whole meet
          (λ a lo hi. pack_infos-below (i.offset + bytes_of packing i) is end from _ a h.1 hi))
      ∙ unpack-pack_all (i.offset + bytes_of packing i) is js end from _ _ h.1 m
    where
      whole : Memory
      whole =
          pack_infos packing from is (packing.pack i.call_back i.index_container from b i.offset)

  -- The parts of a valid buffer are packed, the bytes below its size arrive as they were packed, and
  -- a buffer that is valid and of that size unpacks them, whose parts match in their number and one
  -- by one in offset, in the size of the value type and in the number of elements. The fields that
  -- receive are then as if each element had been copied to its counterpart directly, part by part.
  pub unpack-pack_transfer :
      (sender receiver : Buffer Field Container) (from to received : Memory)
      → IsValid packing sender
      → IsValid packing receiver
      → sender.size ≡ receiver.size
      → Match sender.field_infos receiver.field_infos
      → ((a : ℕ)
          → a < sender.size
          → received a ≡ pack_infos packing from sender.field_infos sender.buffer a)
      → unpack_infos packing received receiver.field_infos to
        ≡ transfer_infos from sender.field_infos to receiver.field_infos
  unpack-pack_transfer s r from to received vs vr e m arrive =
      unpack_infos-Agree 0 r.field_infos r.size received
        (pack_infos packing from s.field_infos s.buffer) to vr (λ a lt. arrive a (omega arith))
      ∙ unpack-pack_all 0 s.field_infos r.field_infos s.size from to s.buffer vs m
