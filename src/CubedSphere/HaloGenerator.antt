-- ===== src/CubedSphere/HaloGenerator.antt =====
-- include/ghex/structured/cubed_sphere/halo_generator.hpp: the halo regions of a domain on one tile,
-- cut along the tile's edges and expressed in the coordinates of the neighbour tiles.
pub mod Sound
pub mod Meet
use ghex.Base.{ℕ, zero, suc, ◌==◌, Bool, true, false, ◌&&◌, List, [], ◌∷◌, ◌++◌, if◌then◌else◌}
use ghex.Base.Int.{ℤ, pos, negsuc, ◌+ℤ◌, ◌-ℤ◌, leb_ℤ, min_ℤ, max_ℤ, eqb_ℤ, pos_part}
use ghex.CubedSphere.Transform.{
  apply, transform_at, inverse_transform_at, tile_at, reversed_x, reversed_y,
}

-- `coordinate_type`: tile, x, y, z.
pub record Cell : Type 0 where
  pub tile : ℤ
  pub x : ℤ
  pub y : ℤ
  pub z : ℤ

abbrev pub zip_cell : (ℤ → ℤ → ℤ) → Cell → Cell → Cell
zip_cell f a b = record { tile = f a.tile b.tile; x = f a.x b.x; y = f a.y b.y; z = f a.z b.z }

pub record Box : Type 0 where
  pub first : Cell
  pub last : Cell

pub record Box2 : Type 0 where
  pub loc : Box
  pub glob : Box

-- `domain_descriptor`; `c` is `edge_size()`.
pub record Domain : Type 0 where
  pub tile : ℕ
  pub c : ℤ
  pub first : Cell
  pub last : Cell

-- `m_halo`: the widths towards -x, +x, -y, +y.
pub record HaloGenerator : Type 0 where
  pub h0 : ℤ
  pub h1 : ℤ
  pub h2 : ℤ
  pub h3 : ℤ

unfoldable pub uniform : ℤ → HaloGenerator
uniform h = record { h0 = h; h1 = h; h2 = h; h3 = h }

-- The two overloads of `intersect` without a domain.
unfoldable pub intersect_box : Box → Box → Box
intersect_box a b = record {
  first = zip_cell max_ℤ a.first b.first;
  last = zip_cell min_ℤ a.last b.last;
}

unfoldable pub intersect : Box2 → Box → Box2
unfolding intersect_box
intersect a b =
    let g = intersect_box a.glob b in
    record {
      loc = record {
        first = zip_cell ◌+ℤ◌ a.loc.first (zip_cell ◌-ℤ◌ g.first a.glob.first);
        last = zip_cell ◌+ℤ◌ a.loc.last (zip_cell ◌-ℤ◌ g.last a.glob.last);
      };
      glob = g;
    }

module _ (g : HaloGenerator) (d : Domain) where
  unfoldable pub domain_box : Box
  domain_box = record { first = d.first; last = d.last }

  unfoldable pub domain_box_local : Box
  domain_box_local = record {
    first = record { tile = pos 0; x = pos 0; y = pos 0; z = pos 0 };
    last = record {
      tile = pos 0;
      x = d.last.x -ℤ d.first.x;
      y = d.last.y -ℤ d.first.y;
      z = d.last.z -ℤ d.first.z;
    };
  }

  unfoldable pub tile_box : Box
  tile_box = record {
    first = record { tile = pos d.tile; x = pos 0; y = pos 0; z = d.first.z };
    last = record { tile = pos d.tile; x = d.c -ℤ pos 1; y = d.c -ℤ pos 1; z = d.last.z };
  }

  shift_x : ℤ → Box → Box
  shift_x k b = record {
    first = record (b.first) { x = b.first.x +ℤ k };
    last = record (b.last) { x = b.last.x +ℤ k };
  }

  shift_y : ℤ → Box → Box
  shift_y k b = record {
    first = record (b.first) { y = b.first.y +ℤ k };
    last = record (b.last) { y = b.last.y +ℤ k };
  }

  -- `neighbor_regions[n]`, in the order n_m0, n_p0, n_0m, n_0p.
  unfoldable pub neighbor_region : ℕ → Box
  unfolding shift_x shift_y tile_box
  neighbor_region zero = shift_x (pos 0 -ℤ d.c) tile_box
  neighbor_region (suc zero) = shift_x d.c tile_box
  neighbor_region (suc (suc zero)) = shift_y (pos 0 -ℤ d.c) tile_box
  neighbor_region (suc (suc (suc n))) = shift_y d.c tile_box

  -- The local side of a halo region.
  unfoldable pub with_local : Box → Box2
  unfolding domain_box domain_box_local
  with_local h = record {
    loc = record {
      first = zip_cell ◌+ℤ◌ domain_box_local.first (zip_cell ◌-ℤ◌ h.first domain_box.first);
      last = zip_cell ◌+ℤ◌ domain_box_local.last (zip_cell ◌-ℤ◌ h.last domain_box.last);
    };
    glob = h;
  }

  -- A region of the domain's box with new bounds in x and y.
  abbrev region : ℤ → ℤ → ℤ → ℤ → Box
  region fx fy lx ly = record {
    first = record (d.first) { x = fx; y = fy };
    last = record (d.last) { x = lx; y = ly };
  }

  -- Bottom, left, right, top; bottom and top include the corners.
  unfoldable pub halo_regions : List Box2
  unfolding with_local
  halo_regions =
      with_local
        (region (d.first.x -ℤ g.h0) (d.first.y -ℤ g.h2) (d.last.x +ℤ g.h1) (d.first.y -ℤ pos 1))
      ∷ with_local (region (d.first.x -ℤ g.h0) d.first.y (d.first.x -ℤ pos 1) d.last.y)
      ∷ with_local (region (d.last.x +ℤ pos 1) d.first.y (d.last.x +ℤ g.h1) d.last.y)
      ∷ with_local
          (region (d.first.x -ℤ g.h0) (d.last.y +ℤ pos 1) (d.last.x +ℤ g.h1) (d.last.y +ℤ g.h3))
      ∷ []

-- The test that a box is not empty, in x and y.
unfoldable pub is_valid : Box → Bool
is_valid b = leb_ℤ b.first.x b.last.x && leb_ℤ b.first.y b.last.y

-- A box in the coordinates of neighbour `n`: both corners transformed, and swapped where the
-- transform reverses an axis.
unfoldable pub to_neighbor : ℕ → ℤ → ℕ → Box → Box
to_neighbor tile c n b =
    let t = transform_at tile n in
    let f = apply t b.first.x b.first.y c in
    let l = apply t b.last.x b.last.y c in
    let rx = reversed_x t in
    let ry = reversed_y t in
    record {
      first = record {
        tile = pos (tile_at tile n);
        x = if rx then l.0 else f.0;
        y = if ry then l.1 else f.1;
        z = b.first.z;
      };
      last = record {
        tile = pos (tile_at tile n);
        x = if rx then f.0 else l.0;
        y = if ry then f.1 else l.1;
        z = b.last.z;
      };
    }

module _ (g : HaloGenerator) (d : Domain) where
  -- One round of the loop over the neighbours.
  unfoldable pub cut : Box2 → ℕ → List Box2
  unfolding is_valid to_neighbor
  cut h n =
      let i = intersect h (neighbor_region g d n) in
      if is_valid i.glob then record i { glob = to_neighbor d.tile d.c n i.glob } ∷ [] else []

  -- One round of the loop over the halo regions.
  unfoldable pub cut_region : Box2 → List Box2
  unfolding is_valid
  cut_region h =
      let i = intersect h (tile_box g d) in
      let own = if is_valid i.glob then i ∷ [] else [] in
      own ++ (cut h 0 ++ (cut h 1 ++ (cut h 2 ++ cut h 3)))

  cut_regions : List Box2 → List Box2
  cut_regions [] = []
  cut_regions (h ∷ hs) = cut_region h ++ cut_regions hs

  -- `operator()`
  unfoldable pub generate : List Box2
  unfolding cut_regions halo_regions
  generate = cut_regions (halo_regions g d)
