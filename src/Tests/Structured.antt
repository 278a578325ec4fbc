-- ===== src/Tests/Structured.antt =====
-- include/ghex/structured/regular/halo_generator.hpp on concrete inputs.
use ghex.Base.{length, get_elem?, some, ℕ, ◌+◌, ◌≡◌, refl, true, false, arith, [], ◌∷◌, length}
use ghex.Base.Int.{ℤ, pos, negsuc, ◌+ℤ◌, ◌-ℤ◌, ◌%ℤ◌}
use ghex.Base.Vec.{Vec, nil, cons}
use ghex.Common.Coordinate
use ghex.Common.Coordinate.Laws.{}
use ghex.Structured.Space.{Span, Box2}
use ghex.Structured.Regular.HaloGenerator
use ghex.Structured.Regular.HaloGenerator.{
  HaloGenerator, Domain, generate, middle, spaces, wrap_span, intersect,
}
use ghex.Structured.Regular.HaloGenerator.Count.{count, bit}
use ghex.Structured.Regular.HaloGenerator.Cover.{in_domain, in_reach, halos_cover}
use ghex.Structured.Regular.HaloGenerator.Wrap.{}
use ghex.Structured.Regular.HaloGenerator.Intersect.{}
use ghex.Structured.FieldUtils.{LoopDim, loop_nest, compute_strides, compute_coordinate}
use ghex.Structured.FieldUtils.Order.{extents, loop_nest-compute_coordinate}
use ghex.Util.DimsMap.Laws.{Within, linear}

abbrev at : ℤ → ℤ → Vec ℤ 2
at x y = cons x (cons y nil)

-- Cells 0 to 19 in both directions, periodic in the first; halo widths 1, 2, 0, 1.
abbrev generator : HaloGenerator 2
generator =
    HaloGenerator.make (at (pos 0) (pos 0)) (at (pos 19) (pos 19))
      (pos 1 ∷ pos 2 ∷ pos 0 ∷ pos 1 ∷ []) (true ∷ false ∷ [])

abbrev corner : Domain ℕ 2
corner = record { id = 7; first = at (pos 0) (pos 0); last = at (pos 9) (pos 4) }

-- Nothing below in the second direction: five regions are left of eight.
generate_count : length (generate generator corner) ≡ 5
unfolding HaloGenerator.make generate Coordinate.ge ◌+ℤ◌ ◌-ℤ◌
generate_count = refl

-- One point at the lower width in the first direction and at the upper one in the second.
halos_cover_example :
    count (at (negsuc 0) (pos 5)) (generate generator corner)
      + bit (in_domain corner.first corner.last (at (negsuc 0) (pos 5)))
    ≡ bit (in_reach generator.halos corner.first corner.last (at (negsuc 0) (pos 5)))
unfolding HaloGenerator.make
halos_cover_example = halos_cover generator corner (at (negsuc 0) (pos 5)) (omega arith)

-- Two layers above in the first direction, none of them below in the second.
count_above : count (at (pos 11) (pos 5)) (generate generator corner) ≡ 1
unfolding HaloGenerator.make generate Coordinate.ge ◌+ℤ◌ ◌-ℤ◌
count_above = refl

count_below : count (at (negsuc 1) (pos 5)) (generate generator corner) ≡ 0
unfolding HaloGenerator.make generate Coordinate.ge ◌+ℤ◌ ◌-ℤ◌
count_below = refl

abbrev below : Span
below = record {
  local_first = negsuc 1;
  local_last = negsuc 0;
  global_first = negsuc 1;
  global_last = negsuc 0;
}

wrap_below : (wrap_span (pos 0) (pos 19) true below).global_first ≡ pos 18
unfolding wrap_span ◌%ℤ◌ ◌+ℤ◌ ◌-ℤ◌
wrap_below = refl

abbrev strip : Box2 2
strip = cons below (
    cons
      (record {
        local_first = pos 0;
        local_last = pos 4;
        global_first = pos 10;
        global_last = pos 14;
      })
      nil)

-- A region of two by three cells, from the cell (1, 2) on, in a field with rows of ten cells of 8
-- bytes.
abbrev region : Vec LoopDim 2
region =
    cons (record { start = 1; extent = 2; byte_stride = 80 })
      (cons (record { start = 2; extent = 3; byte_stride = 8 }) nil)

loop_of_region :
    loop_nest region 0 0 ≡ (96, 0) ∷ (104, 1) ∷ (112, 2) ∷ (176, 3) ∷ (184, 4) ∷ (192, 5) ∷ []
unfolding loop_nest
loop_of_region = refl

loop_nest-compute_coordinate_example :
    (length (loop_nest region 0 0) ≡ 6)
    × (get_elem? (loop_nest region 0 0) 4 ≡ some (184, 4))
    × Within (cons 1 (cons 1 nil)) (extents region)
    × (linear (cons 1 (cons 1 nil)) (cons 3 (cons 1 nil)) ≡ 4)
unfolding compute_coordinate compute_strides
loop_nest-compute_coordinate_example = loop_nest-compute_coordinate region 4 (omega arith)
