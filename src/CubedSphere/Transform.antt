-- ===== src/CubedSphere/Transform.antt =====
-- include/ghex/structured/cubed_sphere/transform.hpp: the affine transforms between the coordinates
-- of neighbouring tiles of a cube with `c` cells along each edge.
pub mod Inverse
pub mod Regions
use ghex.Base.{ℕ, Bool, if◌then◌else◌}
use ghex.Base.Int.{ℤ, pos, negsuc, ◌+ℤ◌, ◌*ℤ◌, eqb_ℤ}
use ghex.Base.Vec
use ghex.Base.Vec.{Vec, nil, cons}

pub record Transform : Type 0 where
  pub r0 : ℤ
  pub r1 : ℤ
  pub r2 : ℤ
  pub r3 : ℤ
  pub t0 : ℤ
  pub t1 : ℤ
  pub o0 : ℤ
  pub o1 : ℤ

-- `transform{{r0,r1,r2,r3},{t0,t1},{o0,o1}}`
abbrev mk : ℤ → ℤ → ℤ → ℤ → ℤ → ℤ → ℤ → ℤ → Transform
mk r0 r1 r2 r3 t0 t1 o0 o1 = record {
  r0 = r0;
  r1 = r1;
  r2 = r2;
  r3 = r3;
  t0 = t0;
  t1 = t1;
  o0 = o0;
  o1 = o1;
}

unfoldable pub switched_xy : Transform → Bool
switched_xy t = eqb_ℤ t.r0 (pos 0)

unfoldable pub reversed_x : Transform → Bool
unfolding switched_xy
reversed_x t = if switched_xy t then eqb_ℤ t.r1 (negsuc 0) else eqb_ℤ t.r0 (negsuc 0)

unfoldable pub reversed_y : Transform → Bool
unfolding switched_xy
reversed_y t = if switched_xy t then eqb_ℤ t.r2 (negsuc 0) else eqb_ℤ t.r3 (negsuc 0)

-- `operator()`
unfoldable pub apply : Transform → ℤ → ℤ → ℤ → ℤ × ℤ
apply t x y c =
    (t.r0 *ℤ x +ℤ t.r1 *ℤ y +ℤ t.t0 *ℤ c +ℤ t.o0, t.r2 *ℤ x +ℤ t.r3 *ℤ y +ℤ t.t1 *ℤ c +ℤ t.o1)

abbrev pub identity_transform : Transform
identity_transform = mk (pos 1) (pos 0) (pos 0) (pos 1) (pos 0) (pos 0) (pos 0) (pos 0)

abbrev four {ℓ} : {A : Type ℓ} → A → A → A → A → Vec A 4
four a b c d = cons a (cons b (cons c (cons d nil)))

abbrev six {ℓ} : {A : Type ℓ} → A → A → A → A → A → A → Vec A 6
six a b c d e f = cons a (cons b (cons c (cons d (cons e (cons f nil)))))

-- The neighbours of each tile, in the order -x, +x, -y, +y.
unfoldable pub tile_lu : Vec (Vec ℕ 4) 6
tile_lu =
    six (four 4 1 5 2) (four 0 3 5 2) (four 0 3 1 4) (four 2 5 1 4) (four 2 5 3 0) (four 4 1 3 0)

unfoldable pub transform_lu : Vec (Vec Transform 4) 6
transform_lu =
    six
      (four (mk (pos 0) (negsuc 0) (pos 1) (pos 0) (pos 1) (pos 1) (negsuc 0) (pos 0))
        (mk (pos 1) (pos 0) (pos 0) (pos 1) (negsuc 0) (pos 0) (pos 0) (pos 0))
        (mk (pos 1) (pos 0) (pos 0) (pos 1) (pos 0) (pos 1) (pos 0) (pos 0))
        (mk (pos 0) (pos 1) (negsuc 0) (pos 0) (negsuc 0) (pos 1) (pos 0) (negsuc 0)))
      (four (mk (pos 1) (pos 0) (pos 0) (pos 1) (pos 1) (pos 0) (pos 0) (pos 0))
        (mk (pos 0) (negsuc 0) (pos 1) (pos 0) (pos 1) (negsuc 0) (negsuc 0) (pos 0))
        (mk (pos 0) (pos 1) (negsuc 0) (pos 0) (pos 1) (pos 1) (pos 0) (negsuc 0))
        (mk (pos 1) (pos 0) (pos 0) (pos 1) (pos 0) (negsuc 0) (pos 0) (pos 0)))
      (four (mk (pos 0) (negsuc 0) (pos 1) (pos 0) (pos 1) (pos 1) (negsuc 0) (pos 0))
        (mk (pos 1) (pos 0) (pos 0) (pos 1) (negsuc 0) (pos 0) (pos 0) (pos 0))
        (mk (pos 1) (pos 0) (pos 0) (pos 1) (pos 0) (pos 1) (pos 0) (pos 0))
        (mk (pos 0) (pos 1) (negsuc 0) (pos 0) (negsuc 0) (pos 1) (pos 0) (negsuc 0)))
      (four (mk (pos 1) (pos 0) (pos 0) (pos 1) (pos 1) (pos 0) (pos 0) (pos 0))
        (mk (pos 0) (negsuc 0) (pos 1) (pos 0) (pos 1) (negsuc 0) (negsuc 0) (pos 0))
        (mk (pos 0) (pos 1) (negsuc 0) (pos 0) (pos 1) (pos 1) (pos 0) (negsuc 0))
        (mk (pos 1) (pos 0) (pos 0) (pos 1) (pos 0) (negsuc 0) (pos 0) (pos 0)))
      (four (mk (pos 0) (negsuc 0) (pos 1) (pos 0) (pos 1) (pos 1) (negsuc 0) (pos 0))
        (mk (pos 1) (pos 0) (pos 0) (pos 1) (negsuc 0) (pos 0) (pos 0) (pos 0))
        (mk (pos 1) (pos 0) (pos 0) (pos 1) (pos 0) (pos 1) (pos 0) (pos 0))
        (mk (pos 0) (pos 1) (negsuc 0) (pos 0) (negsuc 0) (pos 1) (pos 0) (negsuc 0)))
      (four (mk (pos 1) (pos 0) (pos 0) (pos 1) (pos 1) (pos 0) (pos 0) (pos 0))
        (mk (pos 0) (negsuc 0) (pos 1) (pos 0) (pos 1) (negsuc 0) (negsuc 0) (pos 0))
        (mk (pos 0) (pos 1) (negsuc 0) (pos 0) (pos 1) (pos 1) (pos 0) (negsuc 0))
        (mk (pos 1) (pos 0) (pos 0) (pos 1) (pos 0) (negsuc 0) (pos 0) (pos 0)))

-- An entry of a table. Every use has indices in range.
abbrev pub lookup {ℓ} : {A : Type ℓ} → Vec (Vec A 4) 6 → A → ℕ → ℕ → A
lookup table d tile n = Vec.get_or (Vec.get_or table tile (four d d d d)) n d

unfoldable pub transform_at : ℕ → ℕ → Transform
unfolding transform_lu
transform_at = lookup transform_lu identity_transform

unfoldable pub tile_at : ℕ → ℕ → ℕ
unfolding tile_lu
tile_at = lookup tile_lu 0

unfoldable pub inverse_transform_lu : Vec (Vec Transform 4) 6
unfolding transform_at
inverse_transform_lu =
    six (four (transform_at 4 3) (transform_at 1 0) (transform_at 5 3) (transform_at 2 0))
      (four (transform_at 0 1) (transform_at 3 2) (transform_at 5 1) (transform_at 2 2))
      (four (transform_at 0 3) (transform_at 3 0) (transform_at 1 3) (transform_at 4 0))
      (four (transform_at 2 1) (transform_at 5 2) (transform_at 1 1) (transform_at 4 2))
      (four (transform_at 2 3) (transform_at 5 0) (transform_at 3 3) (transform_at 0 0))
      (four (transform_at 4 1) (transform_at 1 2) (transform_at 3 1) (transform_at 0 2))

unfoldable pub inverse_transform_at : ℕ → ℕ → Transform
unfolding inverse_transform_lu
inverse_transform_at = lookup inverse_transform_lu identity_transform
