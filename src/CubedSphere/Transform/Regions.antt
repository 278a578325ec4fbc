-- ===== src/CubedSphere/Transform/Regions.antt =====
-- include/ghex/structured/cubed_sphere/transform.hpp: the cells beyond an edge of a tile.
use ghex.Base.{ℕ, zero, suc, ◌<◌}
use ghex.Base.Int.{ℤ, pos, ◌+ℤ◌, ◌-ℤ◌, ◌≤ℤ◌, ◌<ℤ◌, int_laws, *ℤ_parts}
use ghex.CubedSphere.Tables.{below_four, below_six}
use ghex.CubedSphere.Transform.{Transform, apply, transform_at}

-- The cells of a tile.
abbrev pub InTile : ℤ → ℤ → ℤ → Type 0
InTile c x y = (pos 0 ≤ℤ x) × (x <ℤ c) × (pos 0 ≤ℤ y) × (y <ℤ c)

-- The cells of the square beyond edge `n`, in the tile's own coordinates.
abbrev pub InRegion : ℤ → ℕ → ℤ → ℤ → Type 0
InRegion c zero x y = InTile c (x +ℤ c) y
InRegion c (suc zero) x y = InTile c (x -ℤ c) y
InRegion c (suc (suc zero)) x y = InTile c x (y +ℤ c)
InRegion c (suc (suc (suc n))) x y = InTile c x (y -ℤ c)

abbrev Lands : Transform → ℕ → Type 0
Lands t n = (c x y : ℤ) → InRegion c n x y → InTile c (apply t x y c).0 (apply t x y c).1

even_0 : Lands (transform_at 0 0) 0
unfolding apply transform_at
even_0 c x y h = omega (int_laws, *ℤ_parts)

even_1 : Lands (transform_at 0 1) 1
unfolding apply transform_at
even_1 c x y h = omega (int_laws, *ℤ_parts)

even_2 : Lands (transform_at 0 2) 2
unfolding apply transform_at
even_2 c x y h = omega (int_laws, *ℤ_parts)

even_3 : Lands (transform_at 0 3) 3
unfolding apply transform_at
even_3 c x y h = omega (int_laws, *ℤ_parts)

odd_0 : Lands (transform_at 1 0) 0
unfolding apply transform_at
odd_0 c x y h = omega (int_laws, *ℤ_parts)

odd_1 : Lands (transform_at 1 1) 1
unfolding apply transform_at
odd_1 c x y h = omega (int_laws, *ℤ_parts)

odd_2 : Lands (transform_at 1 2) 2
unfolding apply transform_at
odd_2 c x y h = omega (int_laws, *ℤ_parts)

odd_3 : Lands (transform_at 1 3) 3
unfolding apply transform_at
odd_3 c x y h = omega (int_laws, *ℤ_parts)

-- The transform of a tile to its neighbour at an edge takes every cell of the square beyond that edge
-- to a cell of the neighbour tile.
transform-InTile :
    (tile n : ℕ) (c x y : ℤ)
    → tile < 6
    → n < 4
    → InRegion c n x y
    → let p = apply (transform_at tile n) x y c in InTile c p.0 p.1
unfolding transform_at
transform-InTile tile n c x y ht hn h =
    below_six (λ tile. (n : ℕ) → n < 4 → Lands (transform_at tile n) n)
      (below_four (row 0) even_0 even_1 even_2 even_3) (below_four (row 1) odd_0 odd_1 odd_2 odd_3)
      (below_four (row 2) even_0 even_1 even_2 even_3) (below_four (row 3) odd_0 odd_1 odd_2 odd_3)
      (below_four (row 4) even_0 even_1 even_2 even_3) (below_four (row 5) odd_0 odd_1 odd_2 odd_3)
      tile ht n hn c x y h
  where
    row : ℕ → ℕ → Type 0
    row tile n = Lands (transform_at tile n) n
