-- ===== src/CubedSphere/HaloGenerator/Meet.antt =====
-- include/ghex/structured/cubed_sphere/halo_generator.hpp: the intersection of a halo region, given in
-- the coordinates of the tile where it lies, with another domain's box; and what it is in the local
-- coordinates of the domain that owns the halo.
use ghex.Base.{ℕ, zero, suc, ◌+◌, ◌<◌, ◌≡◌, refl, arith, true, false, if◌then◌else◌, not}
use ghex.Base.Int.{ℤ, pos, ◌+ℤ◌, ◌-ℤ◌, eqb_ℤ, int_laws, *ℤ_parts}
use ghex.CubedSphere.Tables.{below_four, below_six}
use ghex.CubedSphere.Transform.{
  apply, transform_at, inverse_transform_at, tile_at, reversed_x, reversed_y,
}
use ghex.CubedSphere.HaloGenerator.{Cell, Box, Box2, Domain, intersect_box, intersect, to_neighbor}

-- `for (n=0; n<4; ++n) if (tile_lu[..][n] == tile) break;`, with `k` rounds left. Without such
-- a slot it ends at 4, where the source then reads past the table.
unfoldable pub find_slot : ℕ → ℤ → ℕ → ℕ → ℕ
find_slot own tile zero n = n
find_slot own tile (suc k) n =
    let rest = find_slot own tile k (n + 1) in if eqb_ℤ (pos (tile_at own n)) tile then n else rest

-- The local box for the global box `x` on the neighbour tile at slot `n`.
unfoldable pub local_box : Domain → ℕ → Box2 → Box → Box
local_box d n a x =
    let t = inverse_transform_at d.tile n in
    let f = apply t x.first.x x.first.y d.c in
    let l = apply t x.last.x x.last.y d.c in
    let f0 = f.0 -ℤ d.first.x in
    let f1 = f.1 -ℤ d.first.y in
    let l0 = l.0 -ℤ d.first.x in
    let l1 = l.1 -ℤ d.first.y in
    record {
      first = record {
        tile = a.loc.first.tile;
        x = if reversed_x t then l0 else f0;
        y = if reversed_y t then l1 else f1;
        z = a.loc.first.z +ℤ (x.first.z -ℤ a.glob.first.z);
      };
      last = record {
        tile = a.loc.last.tile;
        x = if reversed_x t then f0 else l0;
        y = if reversed_y t then f1 else l1;
        z = a.loc.last.z +ℤ (x.last.z -ℤ a.glob.last.z);
      };
    }

-- `intersect` with a domain; boxes on different tiles give a box with its corners exchanged. The
-- source's comment asks for the box on the domain's tile; the code compares it with the halo's tile.
unfoldable pub intersect_domain : Domain → Box2 → Box → Box2
unfolding find_slot local_box
intersect_domain d a b =
    if not (eqb_ℤ a.glob.first.tile b.first.tile)
    then record {
      loc = record { first = a.loc.last; last = a.loc.first };
      glob = record { first = a.glob.last; last = a.glob.first };
    }
    else if not (eqb_ℤ a.glob.first.tile (pos d.tile))
    then (let x = intersect_box a.glob b in
        record { loc = local_box d (find_slot d.tile a.glob.first.tile 4 0) a x; glob = x })
    else intersect a b

-- A local box in the coordinates of the domain's tile.
abbrev pub from_local : Domain → Box → Box
from_local d b = record {
  first = record (b.first) { x = b.first.x +ℤ d.first.x; y = b.first.y +ℤ d.first.y };
  last = record (b.last) { x = b.last.x +ℤ d.first.x; y = b.last.y +ℤ d.first.y };
}

-- The two boxes have the same corners in x and y.
abbrev pub SameCorners : Box → Box → Type 0
SameCorners a b =
    (a.first.x ≡ b.first.x)
    × (a.first.y ≡ b.first.y)
    × (a.last.x ≡ b.last.x)
    × (a.last.y ≡ b.last.y)

abbrev Returns : ℕ → ℕ → Type 0
Returns tile n =
    (c : ℤ) (first last : Cell) (a : Box2) (x : Box)
    → let d : Domain = record { tile = tile; c = c; first = first; last = last } in
      SameCorners (to_neighbor tile c n (from_local d (local_box d n a x))) x

even_0 : Returns 0 0
unfolding apply transform_at inverse_transform_at to_neighbor reversed_x reversed_y local_box
even_0 c first last a x = omega (int_laws, *ℤ_parts)

even_1 : Returns 0 1
unfolding apply transform_at inverse_transform_at to_neighbor reversed_x reversed_y local_box
even_1 c first last a x = omega (int_laws, *ℤ_parts)

even_2 : Returns 0 2
unfolding apply transform_at inverse_transform_at to_neighbor reversed_x reversed_y local_box
even_2 c first last a x = omega (int_laws, *ℤ_parts)

even_3 : Returns 0 3
unfolding apply transform_at inverse_transform_at to_neighbor reversed_x reversed_y local_box
even_3 c first last a x = omega (int_laws, *ℤ_parts)

odd_0 : Returns 1 0
unfolding apply transform_at inverse_transform_at to_neighbor reversed_x reversed_y local_box
odd_0 c first last a x = omega (int_laws, *ℤ_parts)

odd_1 : Returns 1 1
unfolding apply transform_at inverse_transform_at to_neighbor reversed_x reversed_y local_box
odd_1 c first last a x = omega (int_laws, *ℤ_parts)

odd_2 : Returns 1 2
unfolding apply transform_at inverse_transform_at to_neighbor reversed_x reversed_y local_box
odd_2 c first last a x = omega (int_laws, *ℤ_parts)

odd_3 : Returns 1 3
unfolding apply transform_at inverse_transform_at to_neighbor reversed_x reversed_y local_box
odd_3 c first last a x = omega (int_laws, *ℤ_parts)

local_box-Returns : (tile n : ℕ) → tile < 6 → n < 4 → Returns tile n
unfolding transform_at inverse_transform_at local_box to_neighbor
local_box-Returns tile n ht hn =
    below_six (λ tile. (n : ℕ) → n < 4 → Returns tile n)
      (below_four (Returns 0) even_0 even_1 even_2 even_3)
      (below_four (Returns 1) odd_0 odd_1 odd_2 odd_3)
      (below_four (Returns 2) even_0 even_1 even_2 even_3)
      (below_four (Returns 3) odd_0 odd_1 odd_2 odd_3)
      (below_four (Returns 4) even_0 even_1 even_2 even_3)
      (below_four (Returns 5) odd_0 odd_1 odd_2 odd_3) tile ht n hn

-- The loop finds the slot of a neighbour, which is another tile.
abbrev Found : ℕ → ℕ → Type 0
Found own n =
    (find_slot own (pos (tile_at own n)) 4 0 ≡ n) × (eqb_ℤ (pos (tile_at own n)) (pos own) ≡ false)

find_slot-Found : (own n : ℕ) → own < 6 → n < 4 → Found own n
unfolding find_slot tile_at
find_slot-Found own n ho hn =
    below_six (λ own. (n : ℕ) → n < 4 → Found own n)
      (below_four (Found 0) (refl, refl) (refl, refl) (refl, refl) (refl, refl))
      (below_four (Found 1) (refl, refl) (refl, refl) (refl, refl) (refl, refl))
      (below_four (Found 2) (refl, refl) (refl, refl) (refl, refl) (refl, refl))
      (below_four (Found 3) (refl, refl) (refl, refl) (refl, refl) (refl, refl))
      (below_four (Found 4) (refl, refl) (refl, refl) (refl, refl) (refl, refl))
      (below_four (Found 5) (refl, refl) (refl, refl) (refl, refl) (refl, refl)) own ho n hn

eqb_refl : (x : ℤ) → eqb_ℤ x x ≡ true
eqb_refl x = ground arith

-- For a domain on one of the six tiles, and a halo region and a box on the tile at one of its four
-- neighbour slots: the global side of the result is the intersection of the two, and the local side,
-- moved to the domain's tile and taken to the neighbour tile as the halo generator does it, is the
-- global side again in x and y.
pub intersect_domain-to_neighbor :
    (d : Domain) (n : ℕ) (a : Box2) (b : Box)
    → d.tile < 6
    → n < 4
    → a.glob.first.tile ≡ pos (tile_at d.tile n)
    → b.first.tile ≡ pos (tile_at d.tile n)
    → SameCorners
        (to_neighbor d.tile d.c n (from_local d (intersect_domain d a b).loc))
        (intersect_domain d a b).glob
      × ((intersect_domain d a b).glob ≡ intersect_box a.glob b)
unfolding intersect_domain intersect_box
intersect_domain-to_neighbor d n a b ht hn ha hb =
    let (slot, other) = find_slot-Found d.tile n ht hn in
    rw (intersect_domain, ha, hb, eqb_refl (pos (tile_at d.tile n)), other, slot)
      (local_box-Returns d.tile n ht hn d.c d.first d.last a (intersect_box a.glob b), refl)
