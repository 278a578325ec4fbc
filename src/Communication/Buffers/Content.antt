-- ===== src/Communication/Buffers/Content.antt =====
-- include/ghex/communication_object_2.hpp: what `allocate` puts into the buffer of one pair of domains.
use ghex.Base.{
  ℕ, ◌*◌, ◌≡◌, ◌≢◌, refl, sym, ap, ap₂, ◌∙◌, Bool, true, false, List, [], ◌∷◌, ◌++◌, Option, arith,
  Bool-cases, inl, inr, if◌then◌else◌, ltb, ◌==◌, ◌&&◌, subst,
}
use ghex.Base.OrderedMap.{lookup, upsert, entry, lookup-upsert_self, lookup-upsert_ne}
use ghex.Communication.Packing.{Packing}
use ghex.Communication.Buffers.{
  Buffer, BufferMap, ExtendedDomainId, DomainIdPair, less, push_info, new_buffer, reuse_buffer,
  allocate_halo, allocate, pair_of,
}
use ghex.Communication.Buffers.Order.{less-StrictOrder}

unfoldable pub same : DomainIdPair → DomainIdPair → Bool
same p q = p.first_id == q.first_id && p.second_id == q.second_id

same-true : (p q : DomainIdPair) → same p q ≡ true → p ≡ q
unfolding same
same-true p q e = ap₂ (λ x y. record { first_id = x; second_id = y }) (ground arith) (ground arith)

same-false : (p q : DomainIdPair) → same p q ≡ false → p ≢ q
unfolding same
same-false p q e h = ground (arith, ap (λ x. x.first_id) h, ap (λ x. x.second_id) h)

-- One part of a buffer: a halo that is not empty, for a field.
pub record Part (Field Container : Type 0) : Type 0 where
  pub id : ExtendedDomainId
  pub tag_offset : ℕ
  pub field : Field
  pub container : Container

module _ {Field Container : Type 0} (packing : Packing Field Container) where
  abbrev pub count : Field → Container → ℕ
  count f c = packing.num_elements c * packing.num_components f

  -- The parts for the pair `p` of a pattern's halos, in the order of the halos.
  unfoldable pub part_of :
      DomainIdPair
      → Bool
      → Field
      → ℕ
      → ℕ
      → ExtendedDomainId × Container
      → List (Part Field Container)
  part_of p receive f my_dom_id tag_offset (id, c) =
      if ltb (count f c) 1
      then []
      else if same p (pair_of packing receive my_dom_id id.id)
      then record { id = id; tag_offset = tag_offset; field = f; container = c } ∷ []
      else []

  unfoldable pub parts_of :
      DomainIdPair
      → Bool
      → Field
      → ℕ
      → ℕ
      → List (ExtendedDomainId × Container)
      → List (Part Field Container)
  parts_of p receive f my_dom_id tag_offset [] = []
  parts_of p receive f my_dom_id tag_offset (h ∷ halos) =
      part_of p receive f my_dom_id tag_offset h ++ parts_of p receive f my_dom_id tag_offset halos

  -- One more part, and one after the other, whether there is a buffer yet or not.
  unfoldable pub add_part :
      Part Field Container → Option (Buffer Field Container) → Option (Buffer Field Container)
  add_part q =
      entry less
        (push_info packing q.field q.container (count q.field q.container)
          (new_buffer packing q.id q.tag_offset))
        (λ b.
          push_info packing q.field q.container (count q.field q.container)
            (reuse_buffer packing q.id q.tag_offset b))

  unfoldable pub add_parts :
      List (Part Field Container)
      → Option (Buffer Field Container)
      → Option (Buffer Field Container)
  add_parts [] b = b
  add_parts (q ∷ qs) b = add_parts qs (add_part q b)

  pub add_parts-append :
      (qs rs : List (Part Field Container)) (b : Option (Buffer Field Container))
      → add_parts (qs ++ rs) b ≡ add_parts rs (add_parts qs b)
  unfolding add_parts
  add_parts-append [] rs b = refl
  add_parts-append (q ∷ qs) rs b = add_parts-append qs rs (add_part q b)

  lookup-allocate_halo :
      (p : DomainIdPair) (receive : Bool) (f : Field) (my_dom_id tag_offset : ℕ)
      (h : ExtendedDomainId × Container) (memory : BufferMap Field Container)
      → lookup less p (allocate_halo packing receive f my_dom_id tag_offset h memory)
        ≡ add_parts (part_of p receive f my_dom_id tag_offset h) (lookup less p memory)
  unfolding allocate_halo part_of add_parts add_part
  lookup-allocate_halo p receive f d t (id, c) memory = elim (Bool-cases (ltb (count f c) 1)) [
    | inl e ↦ rw e refl
    | inr e ↦ elim (Bool-cases (same p (pair_of packing receive d id.id))) [
      | inl s ↦
          rw (e, s)
            (subst
              (λ k.
                lookup less p (upsert less k new old memory)
                ≡ entry less new old (lookup less p memory))
              (same-true p (pair_of packing receive d id.id) s)
              (lookup-upsert_self less less-StrictOrder p new old memory))
      | inr s ↦
          rw (e, s)
            (lookup-upsert_ne less less-StrictOrder (pair_of packing receive d id.id) p new old
              memory (same-false p (pair_of packing receive d id.id) s))
    ]
  ]
    where
      new : Buffer Field Container
      new = push_info packing f c (count f c) (new_buffer packing id t)

      old : Buffer Field Container → Buffer Field Container
      old b = push_info packing f c (count f c) (reuse_buffer packing id t b)

  -- The buffer of each pair is changed by the parts for the pair alone, in the order of the halos:
  -- the others are not touched by them, nor by a halo that is empty.
  pub lookup-allocate :
      (p : DomainIdPair) (receive : Bool) (f : Field) (my_dom_id tag_offset : ℕ)
      (halos : List (ExtendedDomainId × Container)) (memory : BufferMap Field Container)
      → lookup less p (allocate packing receive f my_dom_id tag_offset halos memory)
        ≡ add_parts (parts_of p receive f my_dom_id tag_offset halos) (lookup less p memory)
  unfolding allocate parts_of add_parts
  lookup-allocate p receive f d t [] memory = refl
  lookup-allocate p receive f d t (h ∷ halos) memory =
      lookup-allocate p receive f d t halos (allocate_halo packing receive f d t h memory)
      ∙ ap (add_parts (parts_of p receive f d t halos))
          (lookup-allocate_halo p receive f d t h memory)
      ∙ sym (
          add_parts-append (part_of p receive f d t h) (parts_of p receive f d t halos)
            (lookup less p memory))
