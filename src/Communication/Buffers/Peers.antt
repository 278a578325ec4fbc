-- ===== src/Communication/Buffers/Peers.antt =====
-- include/ghex/communication_object_2.hpp: the buffers of the two sides of a message.
use ghex.Base.{
  ℕ, ◌+◌, ◌*◌, ◌≡◌, refl, sym, ap₂, ◌∙◌, true, false, List, [], ◌∷◌, ◌++◌, Option, some, none,
  arith, Bool-cases, inl, inr, ◌==◌, subst,
}
use ghex.Communication.Packing.{Packing}
use ghex.Communication.Buffers.{
  FieldInfo, Buffer, ExtendedDomainId, padding, push_info, new_buffer, reuse_buffer,
}
use ghex.Communication.Buffers.Content.{Part, count, add_part, add_parts}
use ghex.Communication.Buffers.Transfer.{Match, Meet}

module _ {Field Container : Type 0} (packing : Packing Field Container) where
  -- The parts on the two sides of a message correspond: as many elements, and value types of the
  -- same size and alignment.
  abbrev pub Correspond : List (Part Field Container) → List (Part Field Container) → Type 0
  Correspond [] [] = Unit
  Correspond [] (r ∷ rs) = ⊥
  Correspond (q ∷ qs) [] = ⊥
  Correspond (q ∷ qs) (r ∷ rs) =
      (count packing q.field q.container ≡ count packing r.field r.container)
      × (packing.size_of q.field ≡ packing.size_of r.field)
      × (packing.align_of q.field ≡ packing.align_of r.field)
      × Correspond qs rs

  abbrev pub Peers : Option (Buffer Field Container) → Option (Buffer Field Container) → Type 0
  Peers none none = Unit
  Peers none (some c) = c.size ≡ 0
  Peers (some b) none = b.size ≡ 0
  Peers (some b) (some c) = (b.size ≡ c.size) × Match packing b.field_infos c.field_infos

  Match-append :
      (is js : List (FieldInfo Field Container)) (i j : FieldInfo Field Container)
      → Match packing is js
      → Meet packing i j
      → Match packing (is ++ (i ∷ [])) (js ++ (j ∷ []))
  Match-append [] [] i j m k = (k, tt)
  Match-append [] (y ∷ js) i j m k = absurd m
  Match-append (x ∷ is) [] i j m k = absurd m
  Match-append (x ∷ is) (y ∷ js) i j m k = (m.0, Match-append is js i j m.1 k)

  -- Two buffers that are as large and whose parts match.
  abbrev Alike : Buffer Field Container → Buffer Field Container → Type 0
  Alike b c = (b.size ≡ c.size) × Match packing b.field_infos c.field_infos

  abbrev Same : Part Field Container → Part Field Container → Type 0
  Same q r =
      (count packing q.field q.container ≡ count packing r.field r.container)
      × (packing.size_of q.field ≡ packing.size_of r.field)
      × (packing.align_of q.field ≡ packing.align_of r.field)

  push_info-Alike :
      (q r : Part Field Container) (b e : Buffer Field Container)
      → Same q r
      → Alike b e
      → Alike
          (push_info packing q.field q.container (count packing q.field q.container) b)
          (push_info packing r.field r.container (count packing r.field r.container) e)
  unfolding push_info
  push_info-Alike q r b e (n, s, a) (z, m) = (
    omega (arith, offsets, bytes),
    Match-append b.field_infos e.field_infos _ _ m (
      offsets,
      s,
      packing.length-elements q.field q.container
          ∙ n
          ∙ sym (packing.length-elements r.field r.container),
    ),
  )
    where
      offsets :
          b.size + padding b.size (packing.align_of q.field)
          ≡ e.size + padding e.size (packing.align_of r.field)
      offsets = ap₂ (λ x y. x + padding x y) z a

      bytes :
          count packing q.field q.container * packing.size_of q.field
          ≡ count packing r.field r.container * packing.size_of r.field
      bytes = ap₂ (λ x y. x * y) n s

  -- The buffer that a part is pushed on.
  abbrev prepared : Part Field Container → Option (Buffer Field Container) → Buffer Field Container
  prepared q none = new_buffer packing q.id q.tag_offset
  prepared q (some b) = reuse_buffer packing q.id q.tag_offset b

  add_part-prepared :
      (q : Part Field Container) (o : Option (Buffer Field Container))
      → add_part packing q o
        ≡ some (
            push_info packing q.field q.container
              (count packing q.field q.container)
              (prepared q o))
  unfolding add_part
  add_part-prepared q none = refl
  add_part-prepared q (some b) = refl

  reuse_buffer-empty :
      (id : ExtendedDomainId) (t : ℕ) (b : Buffer Field Container)
      → b.size ≡ 0
      → ((reuse_buffer packing id t b).size ≡ 0) × ((reuse_buffer packing id t b).field_infos ≡ [])
  unfolding reuse_buffer
  reuse_buffer-empty id t b h = let e : (b.size == 0) ≡ true = ground (arith, h) in rw e (h, refl)

  reuse_buffer-full :
      (id : ExtendedDomainId) (t : ℕ) (b : Buffer Field Container)
      → (b.size == 0) ≡ false
      → reuse_buffer packing id t b ≡ b
  unfolding reuse_buffer
  reuse_buffer-full id t b h = rw h refl

  Alike-empty :
      (b c : Buffer Field Container)
      → (b.size ≡ 0) × (b.field_infos ≡ [])
      → (c.size ≡ 0) × (c.field_infos ≡ [])
      → Alike b c
  Alike-empty b c (z, f) (z', f') = (z ∙ sym z', rw (f, f') tt)

  prepared-Alike :
      (q r : Part Field Container) (b c : Option (Buffer Field Container))
      → Peers b c
      → Alike (prepared q b) (prepared r c)
  unfolding new_buffer
  prepared-Alike q r none none h = (refl, tt)
  prepared-Alike q r none (some c) h =
      Alike-empty (new_buffer packing q.id q.tag_offset) (reuse_buffer packing r.id r.tag_offset c)
        (refl, refl) (reuse_buffer-empty r.id r.tag_offset c h)
  prepared-Alike q r (some b) none h =
      Alike-empty (reuse_buffer packing q.id q.tag_offset b) (new_buffer packing r.id r.tag_offset)
        (reuse_buffer-empty q.id q.tag_offset b h) (refl, refl)
  prepared-Alike q r (some b) (some c) (z, m) = elim (Bool-cases (b.size == 0)) [
    | inl e ↦
        Alike-empty (reuse_buffer packing q.id q.tag_offset b)
          (reuse_buffer packing r.id r.tag_offset c)
          (reuse_buffer-empty q.id q.tag_offset b (ground (arith, e)))
          (reuse_buffer-empty r.id r.tag_offset c (ground (arith, e, z)))
    | inr e ↦
        subst (λ x. Alike x (reuse_buffer packing r.id r.tag_offset c))
          (sym (reuse_buffer-full q.id q.tag_offset b e))
          (subst (Alike b) (sym (reuse_buffer-full r.id r.tag_offset c (ground (arith, e, z))))
            (z, m))
  ]

  -- Parts that correspond on the two sides of a message, added to buffers that are both missing or
  -- empty, or that are as large and match: the buffers again are missing or empty on both sides, or
  -- as large and match.
  pub add_parts-Peers :
      (qs rs : List (Part Field Container)) (b c : Option (Buffer Field Container))
      → Correspond qs rs
      → Peers b c
      → Peers (add_parts packing qs b) (add_parts packing rs c)
  unfolding add_parts
  add_parts-Peers [] [] b c k h = h
  add_parts-Peers [] (r ∷ rs) b c k h = absurd k
  add_parts-Peers (q ∷ qs) [] b c k h = absurd k
  add_parts-Peers (q ∷ qs) (r ∷ rs) b c (n, s, a, k) h =
      add_parts-Peers qs rs (add_part packing q b) (add_part packing r c) k (
        subst (Peers (add_part packing q b)) (sym (add_part-prepared r c)) (
          subst (λ x. Peers x (some (pushed r c))) (sym (add_part-prepared q b))
            (push_info-Alike q r (prepared q b) (prepared r c) (n, s, a)
              (prepared-Alike q r b c h))))
    where
      pushed : Part Field Container → Option (Buffer Field Container) → Buffer Field Container
      pushed x o =
          push_info packing x.field x.container (count packing x.field x.container) (prepared x o)
