-- ===== src/Communication/Buffers/Layout.antt =====
-- include/ghex/communication_object_2.hpp: where the parts of a buffer lie.
use native.Mathlib.Decide.{}
use ghex.Base.{
  ℕ, zero, suc, ◌+◌, ◌-◌, ◌*◌, ◌/◌, ◌%◌, ◌<◌, ◌≤◌, ◌≡◌, refl, sym, ap, ◌∙◌, Bool, List, [], ◌∷◌,
  ◌++◌, some, get_elem?, All, arith, Bool-cases, inl, inr, ltb, ◌==◌, subst,
}
use ghex.Base.Digits.{mod_unique}
use ghex.Base.OrderedMap.{AllValues, upsert-AllValues}
use ghex.Communication.Packing.{Packing}
use ghex.Communication.Buffers.{
  FieldInfo, Buffer, BufferMap, ExtendedDomainId, less, padding, push_info, new_buffer,
  reuse_buffer, allocate_halo, allocate, pair_of,
}

round_up : (s a : ℕ) → 0 < a → (s ≤ (s + a - 1) / a * a) × ((s + a - 1) / a * a < s + a)
round_up s a h = omega (arith, split, below)
  where
    split : s + a - 1 ≡ (s + a - 1) / a * a + (s + a - 1) % a
    split = omega arith

    below : (s + a - 1) % a < a
    below = omega arith

-- The padding reaches a multiple of the alignment and is less than it.
pub padding-aligned : (s a : ℕ) → 0 < a → ((s + padding s a) % a ≡ 0) × (padding s a < a)
unfolding padding
padding-aligned s a h =
    (ap (λ k. k % a) reaches ∙ mod_unique ((s + a - 1) / a) a 0 h, omega (arith, round_up s a h))
  where
    reaches : s + padding s a ≡ (s + a - 1) / a * a + 0
    reaches = omega (arith, round_up s a h)

module _ {Field Container : Type 0} (packing : Packing Field Container) where
  abbrev pub bytes_of : FieldInfo Field Container → ℕ
  bytes_of i =
      packing.num_elements i.index_container
      * packing.num_components i.call_back
      * packing.size_of i.call_back

  -- The parts from `start` to `end`: each after the one before and its padding.
  abbrev pub LaidOut : ℕ → List (FieldInfo Field Container) → ℕ → Type 0
  LaidOut start [] end = start ≡ end
  LaidOut start (i ∷ is) end =
      (i.offset ≡ start + padding start (packing.align_of i.call_back))
      × LaidOut (i.offset + bytes_of i) is end

  abbrev pub IsValid : Buffer Field Container → Type 0
  IsValid b = LaidOut 0 b.field_infos b.size

  LaidOut-append :
      (start : ℕ) (is : List (FieldInfo Field Container)) (m : ℕ) (i : FieldInfo Field Container)
      → LaidOut start is m
      → i.offset ≡ m + padding m (packing.align_of i.call_back)
      → LaidOut start (is ++ (i ∷ [])) (i.offset + bytes_of i)
  LaidOut-append start [] m i h e =
      (subst (λ k. i.offset ≡ k + padding k (packing.align_of i.call_back)) (sym h) e, refl)
  LaidOut-append start (j ∷ is) m i h e = (h.0, LaidOut-append (j.offset + bytes_of j) is m i h.1 e)

  push_info-IsValid :
      (f : Field) (c : Container) (b : Buffer Field Container)
      → IsValid b
      → IsValid (push_info packing f c (packing.num_elements c * packing.num_components f) b)
  unfolding push_info
  push_info-IsValid f c b h =
      subst (LaidOut 0 (push_info packing f c count b).field_infos) (omega arith) (
        LaidOut-append 0 b.field_infos b.size
          (record {
            call_back = f;
            index_container = c;
            offset = b.size + padding b.size (packing.align_of f);
          })
          h refl)
    where
      count : ℕ
      count = packing.num_elements c * packing.num_components f

  reuse_buffer-IsValid :
      (id : ExtendedDomainId) (t : ℕ) (b : Buffer Field Container)
      → IsValid b
      → IsValid (reuse_buffer packing id t b)
  unfolding reuse_buffer
  reuse_buffer-IsValid id t b h = elim (Bool-cases (b.size == 0)) [
    | inl e ↦ rw e (ground arith)
    | inr e ↦ rw e h
  ]

  allocate_halo-AllValid :
      (receive : Bool) (f : Field) (my_dom_id tag_offset : ℕ) (h : ExtendedDomainId × Container)
      (memory : BufferMap Field Container)
      → AllValues less IsValid memory
      → AllValues less IsValid (allocate_halo packing receive f my_dom_id tag_offset h memory)
  unfolding allocate_halo new_buffer
  allocate_halo-AllValid receive f d t (id, c) memory v =
      elim (Bool-cases (ltb (packing.num_elements c * packing.num_components f) 1)) [
        | inl e ↦ rw e v
        | inr e ↦ rw e (
            upsert-AllValues less IsValid (pair_of packing receive d id.id) _ _ memory
              (push_info-IsValid f c (new_buffer packing id t) refl)
              (λ b w.
                push_info-IsValid f c (reuse_buffer packing id t b) (reuse_buffer-IsValid id t b w))
              v)
      ]

  -- Whatever pattern and field `allocate` is called with: where the buffers of the map are laid out
  -- without gaps but for the padding, with their sizes at the ends of their last parts, so are
  -- those of the map it leaves.
  pub allocate-AllValid :
      (receive : Bool) (f : Field) (my_dom_id tag_offset : ℕ)
      (halos : List (ExtendedDomainId × Container)) (memory : BufferMap Field Container)
      → AllValues less IsValid memory
      → AllValues less IsValid (allocate packing receive f my_dom_id tag_offset halos memory)
  unfolding allocate
  allocate-AllValid receive f d t [] memory v = v
  allocate-AllValid receive f d t (h ∷ halos) memory v =
      allocate-AllValid receive f d t halos (allocate_halo packing receive f d t h memory)
        (allocate_halo-AllValid receive f d t h memory v)

  -- What the layout gives for one part.
  abbrev pub Inside : ℕ → ℕ → FieldInfo Field Container → Type 0
  Inside start end i =
      (start ≤ i.offset)
      × (i.offset + bytes_of i ≤ end)
      × (i.offset % packing.align_of i.call_back ≡ 0)

  pub LaidOut-le :
      (start : ℕ) (is : List (FieldInfo Field Container)) (end : ℕ)
      → LaidOut start is end
      → start ≤ end
  LaidOut-le start [] end h = omega arith
  LaidOut-le start (i ∷ is) end h =
      omega (arith, LaidOut-le (i.offset + bytes_of i) is end h.1, h.0)

  -- The alignments of the parts' value types are positive.
  abbrev pub Aligned : List (FieldInfo Field Container) → Type 0
  Aligned = All (λ i. 0 < packing.align_of i.call_back)

  LaidOut-Inside :
      (start : ℕ) (is : List (FieldInfo Field Container)) (end k : ℕ)
      (i : FieldInfo Field Container)
      → Aligned is
      → LaidOut start is end
      → get_elem? is k ≡ some i
      → Inside start end i
  LaidOut-Inside start [] end k i al h g = cc
  LaidOut-Inside start (j ∷ is) end zero i al h g =
      let e : j ≡ i = cc in
      subst (Inside start end) e (
        omega (arith, h.0),
        LaidOut-le (j.offset + bytes_of j) is end h.1,
        ap (λ x. x % packing.align_of j.call_back) h.0
            ∙ (padding-aligned start (packing.align_of j.call_back) al.0).0,
      )
  LaidOut-Inside start (j ∷ is) end (suc k) i al h g =
      let (lo, hi, at) = LaidOut-Inside (j.offset + bytes_of j) is end k i al.1 h.1 g in
      (omega (arith, lo, h.0), hi, at)

  LaidOut-apart :
      (start : ℕ) (is : List (FieldInfo Field Container)) (end k l : ℕ)
      (i j : FieldInfo Field Container)
      → Aligned is
      → LaidOut start is end
      → k < l
      → get_elem? is k ≡ some i
      → get_elem? is l ≡ some j
      → i.offset + bytes_of i ≤ j.offset
  LaidOut-apart start [] end k l i j al h lt g g' = cc
  LaidOut-apart start (p ∷ is) end k zero i j al h lt g g' = absurd (omega arith)
  LaidOut-apart start (p ∷ is) end zero (suc l) i j al h lt g g' =
      let e : p ≡ i = cc in
      subst (λ x. x.offset + bytes_of x ≤ j.offset) e
        (LaidOut-Inside (p.offset + bytes_of p) is end l j al.1 h.1 g').0
  LaidOut-apart start (p ∷ is) end (suc k) (suc l) i j al h lt g g' =
      LaidOut-apart (p.offset + bytes_of p) is end k l i j al.1 h.1 (omega arith) g g'

  -- Two parts of a valid buffer, one before the other in the list.
  pub IsValid-apart :
      (b : Buffer Field Container) (k l : ℕ) (i j : FieldInfo Field Container)
      → Aligned b.field_infos
      → IsValid b
      → k < l
      → get_elem? b.field_infos k ≡ some i
      → get_elem? b.field_infos l ≡ some j
      → Inside 0 b.size i × Inside 0 b.size j × (i.offset + bytes_of i ≤ j.offset)
  IsValid-apart b k l i j al h lt g g' = (
    LaidOut-Inside 0 b.field_infos b.size k i al h g,
    LaidOut-Inside 0 b.field_infos b.size l j al h g',
    LaidOut-apart 0 b.field_infos b.size k l i j al h lt g g',
  )
