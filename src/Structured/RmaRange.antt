-- ===== src/Structured/RmaRange.antt =====
-- include/ghex/structured/rma_range.hpp: the positions of a multi-dimensional range of chunks. The
-- dimensions stand in the order of the layout, the slowest first; the fastest one, along which a chunk
-- lies, is kept apart. Indices and sizes are taken not to overflow.
pub mod Increment
use ghex.Base.{
  ℕ, zero, suc, ◌+◌, ◌-◌, ◌*◌, ◌/◌, Bool, true, false, if◌then◌else◌, ◌==◌, ltb, leb, List, [], ◌∷◌,
}
use ghex.Base.Int.{ℤ, pos, negsuc}
use ghex.Base.Vec
use ghex.Base.Vec.{Vec, nil, cons, fill}
use ghex.Util.DimsMap

-- A coordinate: the components but the fastest, and the fastest.
pub record Place (k : ℕ) : Type 0 where
  pub outer : Vec ℕ k
  pub inner : ℕ

pub record RmaRange (k : ℕ) : Type 0 where
  pub extent : Vec ℕ k
  pub chunk_size : ℕ
  pub first : Place k
  pub last : Place k
  pub reduced_stride : Vec ℕ k
  pub size : ℕ
  pub num_elements : ℕ

-- The loop that computes `m_reduced_stride`, from the fastest dimension on, with `prod`.
unfoldable pub strides : {k : ℕ} → Vec ℕ k → Vec ℕ k × ℕ
strides nil = (nil, 1)
strides (cons e es) = let (ss, prod) = strides es in (cons prod ss, prod * e)

unfoldable pub make : {k : ℕ} → Vec ℕ k → ℕ → RmaRange k
unfolding strides DimsMap.size_loop
make {k} extent chunk = record {
  extent = extent;
  chunk_size = chunk;
  first = record { outer = fill k 0; inner = 0 };
  last = record { outer = Vec.map (λ e. e - 1) extent; inner = chunk };
  reduced_stride = (strides extent).0;
  size = DimsMap.size_loop 1 extent * chunk / chunk;
  num_elements = DimsMap.size_loop 1 extent * chunk;
}

-- `inc_coord::fn`: the next coordinate, and whether all components have been reset to 0.
unfoldable pub inc_coord : {k : ℕ} → Vec ℕ k → Vec ℕ k → Vec ℕ k × Bool
inc_coord nil nil = (nil, true)
inc_coord (cons c cs) (cons e es) =
    let (next, carry) = inc_coord cs es in
    if carry
    then if c == e - 1 then (cons 0 next, true) else (cons (c + 1) next, false)
    else (cons c next, false)

-- `inc(index, coord)`; the index bound excludes the case in which all components are reset.
unfoldable pub inc : {k : ℕ} → RmaRange k → ℕ → Place k → ℕ × Place k
unfolding inc_coord
inc r index coord =
    if leb r.size (index + 1)
    then (r.size, r.last)
    else (index + 1, record { outer = (inc_coord coord.outer r.extent).0; inner = 0 })

-- The part of `inc(index, n, coord)` after the sum.
unfoldable pub place_at : {k : ℕ} → RmaRange k → ℕ → ℕ × Place k
unfolding DimsMap.upward
place_at r index =
    if leb r.size index
    then (r.size, r.last)
    else (index, record { outer = DimsMap.upward index r.reduced_stride; inner = 0 })

-- `inc(index, n, coord)`
unfoldable pub inc_by : {k : ℕ} → RmaRange k → ℕ → ℤ → ℕ × Place k
unfolding place_at
inc_by r index (pos n) = place_at r (index + n)
inc_by r index (negsuc n) = if ltb index (suc n) then (0, r.first) else place_at r (index - suc n)
