-- ===== src/Communication/Object/TagMap.antt =====
-- include/ghex/communication_object_2.hpp: the tag offsets of the pattern containers of an exchange.
use mathlib.Core.Option.{}
use native.Mathlib.Decide.{ℕ_discrete}
use ghex.Base.{
  ℕ, zero, suc, ◌+◌, ◌<◌, ◌≤◌, ◌≡◌, ◌≢◌, ◌⊎◌, sym, ap, ◌∙◌, subst, List, [], ◌∷◌, none, some, inl,
  inr, Option-cases, get_elem?, ltb, arith,
}
use ghex.Base.OrderedMap.{lookup}
use ghex.Base.NatMap.{insert, insert-ne, insert-old, insert-new, insert-top}
use ghex.Communication.Object.{tag_map, tag_offset}

module _ (max_tag_of : ℕ → ℕ) where
  -- The tags that a container takes, from its offset on.
  abbrev Below : List (ℕ × ℕ) → ℕ → Type 0
  Below m top = (p o : ℕ) → lookup ltb p m ≡ some o → o + max_tag_of p < top

  abbrev Apart : List (ℕ × ℕ) → Type 0
  Apart m =
      (p q o u : ℕ)
      → p ≢ q
      → lookup ltb p m ≡ some o
      → lookup ltb q m ≡ some u
      → (o + max_tag_of p < u) ⊎ (u + max_tag_of q < o)

  -- The tags of a new container start where all others end.
  insert-Below :
      (p top : ℕ) (m : List (ℕ × ℕ))
      → lookup ltb p m ≡ none
      → Below m top
      → Below (insert p top m) (top + (max_tag_of p + 1))
  insert-Below p top m h b q o f = elim (ℕ_discrete q p) [
    | yes e ↦ omega (arith, insert-top p top m h q o e f, ap max_tag_of e)
    | no n ↦ let below = b q o (sym (insert-ne p q top m n) ∙ f) in omega (arith, below)
  ]

  insert-Apart :
      (p top : ℕ) (m : List (ℕ × ℕ))
      → lookup ltb p m ≡ none
      → Below m top
      → Apart m
      → Apart (insert p top m)
  insert-Apart p top m h b a q r o u ne f g = elim (ℕ_discrete q p) [
    | yes e ↦
        let rest = b r u (sym (insert-ne p r top m (λ k. ne (e ∙ sym k))) ∙ g) in
        inr (omega (arith, insert-top p top m h q o e f, rest))
    | no n ↦ elim (ℕ_discrete r p) [
      | yes e ↦
          let rest = b q o (sym (insert-ne p q top m n) ∙ f) in
          inl (omega (arith, insert-top p top m h r u e g, rest))
      | no k ↦ a q r o u ne (sym (insert-ne p q top m n) ∙ f) (sym (insert-ne p r top m k) ∙ g)
    ]
  ]

  tag_map-Apart :
      (ptrs : List ℕ) (m : List (ℕ × ℕ)) (top : ℕ)
      → Below m top
      → Apart m
      → Apart (tag_map max_tag_of ptrs m top).0
  unfolding tag_map
  tag_map-Apart [] m top b a = a
  tag_map-Apart (p ∷ ptrs) m top b a = elim (Option-cases (lookup ltb p m)) [
    | inl h ↦
        rw (h, tag_map)
          (tag_map-Apart ptrs (insert p top m) (top + (max_tag_of p + 1)) (insert-Below p top m h b)
            (insert-Apart p top m h b a))
    | inr (t, h) ↦
        rw (h, tag_map)
          (tag_map-Apart ptrs (insert p top m) top
            (λ q o f. b q o (sym (insert-old p t top m h q) ∙ f))
            (λ q r o u ne f g.
              a q r o u ne (sym (insert-old p t top m h q) ∙ f)
                (sym (insert-old p t top m h r) ∙ g)))
  ]

  -- Containers that are in the map stay, and those of the list come in.
  insert-some :
      (p top q t : ℕ) (m : List (ℕ × ℕ))
      → lookup ltb q m ≡ some t
      → (u : ℕ) × (lookup ltb q (insert p top m) ≡ some u)
  insert-some p top q t m h = elim (ℕ_discrete q p) [
    | yes e ↦ (t, insert-old p t top m (subst (λ k. lookup ltb k m ≡ some t) e h) q ∙ h)
    | no n ↦ (t, insert-ne p q top m n ∙ h)
  ]

  insert-there : (p top : ℕ) (m : List (ℕ × ℕ)) → (u : ℕ) × (lookup ltb p (insert p top m) ≡ some u)
  insert-there p top m = elim (Option-cases (lookup ltb p m)) [
    | inl h ↦ (top, insert-new p top m h)
    | inr (t, h) ↦ (t, insert-old p t top m h p ∙ h)
  ]

  tag_map-keeps :
      (ptrs : List ℕ) (m : List (ℕ × ℕ)) (top q : ℕ)
      → ((t : ℕ) × (lookup ltb q m ≡ some t))
      → (u : ℕ) × (lookup ltb q (tag_map max_tag_of ptrs m top).0 ≡ some u)
  unfolding tag_map
  tag_map-keeps [] m top q h = h
  tag_map-keeps (p ∷ ptrs) m top q (t, h) =
      tag_map-keeps ptrs (insert p top m) _ q (insert-some p top q t m h)

  tag_map-has :
      (ptrs : List ℕ) (m : List (ℕ × ℕ)) (top k q : ℕ)
      → get_elem? ptrs k ≡ some q
      → (u : ℕ) × (lookup ltb q (tag_map max_tag_of ptrs m top).0 ≡ some u)
  unfolding tag_map
  tag_map-has [] m top k q h = cc
  tag_map-has (p ∷ ptrs) m top zero q h =
      let e : p ≡ q = cc in
      tag_map-keeps ptrs (insert p top m) _ q
        (subst (λ x. (u : ℕ) × (lookup ltb x (insert p top m) ≡ some u)) e (insert-there p top m))
  tag_map-has (p ∷ ptrs) m top (suc k) q h = tag_map-has ptrs (insert p top m) _ k q h

  -- Two different containers among those of the fields of an exchange, whatever other containers
  -- there are: no tag up to the maximum of the first, moved by its offset, is a tag up to the
  -- maximum of the second, moved by its own.
  pub tag_offset-distinct :
      (ptrs : List ℕ) (i j p q t u : ℕ)
      → get_elem? ptrs i ≡ some p
      → get_elem? ptrs j ≡ some q
      → p ≢ q
      → t ≤ max_tag_of p
      → u ≤ max_tag_of q
      → t + tag_offset (tag_map max_tag_of ptrs [] 0).0 p
        ≢ u + tag_offset (tag_map max_tag_of ptrs [] 0).0 q
  unfolding tag_offset
  tag_offset-distinct ptrs i j p q t u f g ne lt lu =
      let (o, e) = tag_map-has ptrs [] 0 i p f in
      let (r, d) = tag_map-has ptrs [] 0 j q g in
      let apart = tag_map-Apart ptrs [] 0 (λ x y h. cc) (λ x y v w n h k. cc) p q o r ne e d in
      rw (e, d, tag_offset)
        (λ same. elim apart [ inl a ↦ omega (arith, a) | inr a ↦ omega (arith, a) ])
