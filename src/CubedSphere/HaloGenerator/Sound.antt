-- ===== src/CubedSphere/HaloGenerator/Sound.antt =====
-- include/ghex/structured/cubed_sphere/halo_generator.hpp: the regions that operator() returns.
use ghex.Base.{
  ℕ, zero, suc, ◌<◌, ◌≡◌, arith, true, ◌⊎◌, inl, inr, List, [], ◌∷◌, ◌++◌, All, ◌∙◌, if◌then◌else◌,
  All-append, Bool-cases,
}
use ghex.Base.Int.{ℤ, ◌-ℤ◌, ◌≤ℤ◌, int_laws, *ℤ_parts, max_ℤ_ge, min_ℤ_le}
use ghex.CubedSphere.Tables.{below_four, below_six}
use ghex.CubedSphere.Transform.{apply, transform_at, tile_at, reversed_x, reversed_y}
use ghex.CubedSphere.Transform.Regions.{InTile, InRegion}
use ghex.CubedSphere.HaloGenerator.{
  Box, Box2, Domain, HaloGenerator, intersect, tile_box, neighbor_region, halo_regions, is_valid,
  to_neighbor, cut, cut_region, cut_regions, generate,
}

-- A box of cells of a tile with `c` cells along an edge, not empty in x and y.
abbrev pub IsTileBox : ℤ → Box → Type 0
IsTileBox c b =
    InTile c b.first.x b.first.y
    × InTile c b.last.x b.last.y
    × (b.first.x ≤ℤ b.last.x)
    × (b.first.y ≤ℤ b.last.y)

-- The two boxes have the same extents in x and y, or the one's are the other's exchanged.
abbrev pub SameExtents : Box → Box → Type 0
SameExtents a b =
    ((a.last.x -ℤ a.first.x ≡ b.last.x -ℤ b.first.x)
      × (a.last.y -ℤ a.first.y ≡ b.last.y -ℤ b.first.y))
    ⊎ ((a.last.x -ℤ a.first.x ≡ b.last.y -ℤ b.first.y)
        × (a.last.y -ℤ a.first.y ≡ b.last.x -ℤ b.first.x))

abbrev IsRegionBox : ℤ → ℕ → Box → Type 0
IsRegionBox c n b =
    InRegion c n b.first.x b.first.y
    × InRegion c n b.last.x b.last.y
    × (b.first.x ≤ℤ b.last.x)
    × (b.first.y ≤ℤ b.last.y)

abbrev Turns : ℕ → ℕ → Type 0
Turns tile n =
    (c : ℤ) (b : Box)
    → IsRegionBox c n b
    → IsTileBox c (to_neighbor tile c n b) × SameExtents b (to_neighbor tile c n b)

even_0 : Turns 0 0
unfolding apply transform_at to_neighbor reversed_x reversed_y
even_0 c b h = (omega (int_laws, *ℤ_parts), inr (omega (int_laws, *ℤ_parts)))

even_1 : Turns 0 1
unfolding apply transform_at to_neighbor reversed_x reversed_y
even_1 c b h = (omega (int_laws, *ℤ_parts), inl (omega (int_laws, *ℤ_parts)))

even_2 : Turns 0 2
unfolding apply transform_at to_neighbor reversed_x reversed_y
even_2 c b h = (omega (int_laws, *ℤ_parts), inl (omega (int_laws, *ℤ_parts)))

even_3 : Turns 0 3
unfolding apply transform_at to_neighbor reversed_x reversed_y
even_3 c b h = (omega (int_laws, *ℤ_parts), inr (omega (int_laws, *ℤ_parts)))

odd_0 : Turns 1 0
unfolding apply transform_at to_neighbor reversed_x reversed_y
odd_0 c b h = (omega (int_laws, *ℤ_parts), inl (omega (int_laws, *ℤ_parts)))

odd_1 : Turns 1 1
unfolding apply transform_at to_neighbor reversed_x reversed_y
odd_1 c b h = (omega (int_laws, *ℤ_parts), inr (omega (int_laws, *ℤ_parts)))

odd_2 : Turns 1 2
unfolding apply transform_at to_neighbor reversed_x reversed_y
odd_2 c b h = (omega (int_laws, *ℤ_parts), inr (omega (int_laws, *ℤ_parts)))

odd_3 : Turns 1 3
unfolding apply transform_at to_neighbor reversed_x reversed_y
odd_3 c b h = (omega (int_laws, *ℤ_parts), inl (omega (int_laws, *ℤ_parts)))

to_neighbor-Turns : (tile n : ℕ) → tile < 6 → n < 4 → Turns tile n
unfolding transform_at to_neighbor tile_at
to_neighbor-Turns tile n ht hn =
    below_six (λ tile. (n : ℕ) → n < 4 → Turns tile n)
      (below_four (Turns 0) even_0 even_1 even_2 even_3)
      (below_four (Turns 1) odd_0 odd_1 odd_2 odd_3)
      (below_four (Turns 2) even_0 even_1 even_2 even_3)
      (below_four (Turns 3) odd_0 odd_1 odd_2 odd_3)
      (below_four (Turns 4) even_0 even_1 even_2 even_3)
      (below_four (Turns 5) odd_0 odd_1 odd_2 odd_3) tile ht n hn

-- What holds of each halo: the global side is a box of the tile that it names, and the local side
-- has its extents, exchanged where the transform exchanges the axes.
abbrev pub IsSound : ℤ → Box2 → Type 0
IsSound c h = IsTileBox c h.glob × SameExtents h.loc h.glob

abbrev Aligned : Box2 → Type 0
Aligned h =
    (h.loc.last.x -ℤ h.loc.first.x ≡ h.glob.last.x -ℤ h.glob.first.x)
    × (h.loc.last.y -ℤ h.loc.first.y ≡ h.glob.last.y -ℤ h.glob.first.y)

halo_regions-Aligned : (g : HaloGenerator) (d : Domain) → All Aligned (halo_regions g d)
unfolding halo_regions
halo_regions-Aligned g d = omega int_laws

intersect-Aligned : (h : Box2) (b : Box) → Aligned h → Aligned (intersect h b)
unfolding intersect
intersect-Aligned h b k = omega int_laws

is_valid-ordered : (b : Box) → is_valid b ≡ true → (b.first.x ≤ℤ b.last.x) × (b.first.y ≤ℤ b.last.y)
unfolding is_valid
is_valid-ordered b v = ground arith

module _ (g : HaloGenerator) (d : Domain) where
  own-IsSound :
      (h : Box2)
      → Aligned h
      → is_valid (intersect h (tile_box g d)).glob ≡ true
      → IsSound d.c (intersect h (tile_box g d))
  unfolding intersect tile_box
  own-IsSound h k v =
      let o = is_valid-ordered (intersect h (tile_box g d)).glob v in
      (omega (int_laws, max_ℤ_ge, min_ℤ_le, o), inl (intersect-Aligned h (tile_box g d) k))

  neighbor-IsRegionBox :
      (h : Box2) (n : ℕ)
      → n < 4
      → is_valid (intersect h (neighbor_region g d n)).glob ≡ true
      → IsRegionBox d.c n (intersect h (neighbor_region g d n)).glob
  unfolding intersect neighbor_region
  neighbor-IsRegionBox h zero hn v =
      let o = is_valid-ordered (intersect h (neighbor_region g d 0)).glob v in
      omega (int_laws, max_ℤ_ge, min_ℤ_le, o)
  neighbor-IsRegionBox h (suc zero) hn v =
      let o = is_valid-ordered (intersect h (neighbor_region g d 1)).glob v in
      omega (int_laws, max_ℤ_ge, min_ℤ_le, o)
  neighbor-IsRegionBox h (suc (suc zero)) hn v =
      let o = is_valid-ordered (intersect h (neighbor_region g d 2)).glob v in
      omega (int_laws, max_ℤ_ge, min_ℤ_le, o)
  neighbor-IsRegionBox h (suc (suc (suc n))) hn v =
      let o = is_valid-ordered (intersect h (neighbor_region g d 3)).glob v in
      omega (int_laws, max_ℤ_ge, min_ℤ_le, o)

  SameExtents-trans : (h : Box2) (b : Box) → Aligned h → SameExtents h.glob b → SameExtents h.loc b
  SameExtents-trans h b k (inl e) = inl (k.0 ∙ e.0, k.1 ∙ e.1)
  SameExtents-trans h b k (inr e) = inr (k.0 ∙ e.0, k.1 ∙ e.1)

  cut-IsSound :
      d.tile < 6 → (h : Box2) (n : ℕ) → n < 4 → Aligned h → All (IsSound d.c) (cut g d h n)
  unfolding cut
  cut-IsSound ht h n hn k =
      let i = intersect h (neighbor_region g d n) in
      elim (Bool-cases (is_valid i.glob)) [
        | inl v ↦
            let (a, b) =
              to_neighbor-Turns d.tile n ht hn d.c i.glob (neighbor-IsRegionBox h n hn v) in
            let i-Aligned = intersect-Aligned h (neighbor_region g d n) k in
            rw (v, cut) ((a, SameExtents-trans i (to_neighbor d.tile d.c n i.glob) i-Aligned b), tt)
        | inr v ↦ rw (v, cut) tt
      ]

  own_list-IsSound :
      (h : Box2)
      → Aligned h
      → All (IsSound d.c) (
          if is_valid (intersect h (tile_box g d)).glob
          then intersect h (tile_box g d) ∷ []
          else [])
  own_list-IsSound h k = elim (Bool-cases (is_valid (intersect h (tile_box g d)).glob)) [
    | inl v ↦ rw v (own-IsSound h k v, tt)
    | inr v ↦ rw v tt
  ]

  cut_region-IsSound : d.tile < 6 → (h : Box2) → Aligned h → All (IsSound d.c) (cut_region g d h)
  unfolding cut_region
  cut_region-IsSound ht h k =
      let S = IsSound d.c in
      let part = λ (n : ℕ) (hn : n < 4). cut-IsSound ht h n hn k in
      All-append S _ (cut g d h 0 ++ (cut g d h 1 ++ (cut g d h 2 ++ cut g d h 3)))
        (own_list-IsSound h k)
        (All-append S (cut g d h 0) (cut g d h 1 ++ (cut g d h 2 ++ cut g d h 3))
          (part 0 (omega arith))
          (All-append S (cut g d h 1) (cut g d h 2 ++ cut g d h 3) (part 1 (omega arith)) (
            All-append S (cut g d h 2) (cut g d h 3) (part 2 (omega arith))
              (part 3 (omega arith)))))

  cut_regions-IsSound :
      d.tile < 6 → (hs : List Box2) → All Aligned hs → All (IsSound d.c) (cut_regions g d hs)
  unfolding cut_regions
  cut_regions-IsSound ht [] k = tt
  cut_regions-IsSound ht (h ∷ hs) k =
      All-append (IsSound d.c) (cut_region g d h) (cut_regions g d hs) (cut_region-IsSound ht h k.0)
        (cut_regions-IsSound ht hs k.1)

  -- For a domain on one of the six tiles, whatever the halo widths and the domain's corners: both
  -- corners of every generated halo have x and y from 0 to below the edge size, the first corner is
  -- at or before the last in x and y, and the local side has the same extents in x and y or the
  -- same exchanged.
  pub generate-IsSound : d.tile < 6 → All (IsSound d.c) (generate g d)
  unfolding generate
  generate-IsSound ht = cut_regions-IsSound ht (halo_regions g d) (halo_regions-Aligned g d)
