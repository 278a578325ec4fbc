-- ===== src/CubedSphere/Transform/Inverse.antt =====
-- include/ghex/structured/cubed_sphere/transform.hpp: the inverse table and the transform table.
use ghex.Base.{ℕ, ◌<◌, ◌≡◌, refl, arith}
use ghex.Base.Int.{ℤ, int_laws, *ℤ_parts}
use ghex.CubedSphere.Tables.{below_four, below_six}
use ghex.CubedSphere.Transform.{Transform, apply, transform_at, inverse_transform_at, tile_at}

-- The second transform takes the first one's result back.
abbrev pub Undoes : Transform → Transform → Type 0
Undoes u t =
    (x y c : ℤ) → let p = apply t x y c in ((apply u p.0 p.1 c).0 ≡ x) × ((apply u p.0 p.1 c).1 ≡ y)

even_0 : Undoes (inverse_transform_at 0 0) (transform_at 0 0)
unfolding apply transform_at inverse_transform_at
even_0 x y c = omega (int_laws, *ℤ_parts)

even_1 : Undoes (inverse_transform_at 0 1) (transform_at 0 1)
unfolding apply transform_at inverse_transform_at
even_1 x y c = omega (int_laws, *ℤ_parts)

even_2 : Undoes (inverse_transform_at 0 2) (transform_at 0 2)
unfolding apply transform_at inverse_transform_at
even_2 x y c = omega (int_laws, *ℤ_parts)

even_3 : Undoes (inverse_transform_at 0 3) (transform_at 0 3)
unfolding apply transform_at inverse_transform_at
even_3 x y c = omega (int_laws, *ℤ_parts)

odd_0 : Undoes (inverse_transform_at 1 0) (transform_at 1 0)
unfolding apply transform_at inverse_transform_at
odd_0 x y c = omega (int_laws, *ℤ_parts)

odd_1 : Undoes (inverse_transform_at 1 1) (transform_at 1 1)
unfolding apply transform_at inverse_transform_at
odd_1 x y c = omega (int_laws, *ℤ_parts)

odd_2 : Undoes (inverse_transform_at 1 2) (transform_at 1 2)
unfolding apply transform_at inverse_transform_at
odd_2 x y c = omega (int_laws, *ℤ_parts)

odd_3 : Undoes (inverse_transform_at 1 3) (transform_at 1 3)
unfolding apply transform_at inverse_transform_at
odd_3 x y c = omega (int_laws, *ℤ_parts)

-- For every tile and every neighbour the entry of the inverse table undoes the entry of the
-- transform table, at all coordinates and all resolutions.
pub inverse-transform :
    (tile n : ℕ) → tile < 6 → n < 4 → Undoes (inverse_transform_at tile n) (transform_at tile n)
unfolding transform_at inverse_transform_at
inverse-transform tile n ht hn =
    below_six (λ tile. (n : ℕ) → n < 4 → Undoes (inverse_transform_at tile n) (transform_at tile n))
      (below_four (row 0) even_0 even_1 even_2 even_3) (below_four (row 1) odd_0 odd_1 odd_2 odd_3)
      (below_four (row 2) even_0 even_1 even_2 even_3) (below_four (row 3) odd_0 odd_1 odd_2 odd_3)
      (below_four (row 4) even_0 even_1 even_2 even_3) (below_four (row 5) odd_0 odd_1 odd_2 odd_3)
      tile ht n hn
  where
    row : ℕ → ℕ → Type 0
    row tile n = Undoes (inverse_transform_at tile n) (transform_at tile n)

-- Some neighbour slot of the neighbour tile holds the tile itself, and the inverse table's entry is
-- the transform of that slot.
abbrev pub WayBack : ℕ → ℕ → Type 0
WayBack tile n =
    (m : ℕ) × (m < 4)
    × (tile_at (tile_at tile n) m ≡ tile)
    × (inverse_transform_at tile n ≡ transform_at (tile_at tile n) m)

-- For every tile and every neighbour: among the neighbour's own neighbours is the tile, and the entry
-- of the inverse table is the entry of the transform table for that way back.
tile_at-WayBack : (tile n : ℕ) → tile < 6 → n < 4 → WayBack tile n
unfolding tile_at transform_at inverse_transform_at
tile_at-WayBack tile n ht hn =
    below_six (λ tile. (n : ℕ) → n < 4 → WayBack tile n)
      (below_four (WayBack 0) (3, omega arith, refl, refl) (0, omega arith, refl, refl)
        (3, omega arith, refl, refl) (0, omega arith, refl, refl))
      (below_four (WayBack 1) (1, omega arith, refl, refl) (2, omega arith, refl, refl)
        (1, omega arith, refl, refl) (2, omega arith, refl, refl))
      (below_four (WayBack 2) (3, omega arith, refl, refl) (0, omega arith, refl, refl)
        (3, omega arith, refl, refl) (0, omega arith, refl, refl))
      (below_four (WayBack 3) (1, omega arith, refl, refl) (2, omega arith, refl, refl)
        (1, omega arith, refl, refl) (2, omega arith, refl, refl))
      (below_four (WayBack 4) (3, omega arith, refl, refl) (0, omega arith, refl, refl)
        (3, omega arith, refl, refl) (0, omega arith, refl, refl))
      (below_four (WayBack 5) (1, omega arith, refl, refl) (2, omega arith, refl, refl)
        (1, omega arith, refl, refl) (2, omega arith, refl, refl))
      tile ht n hn
