-- ===== src/Structured/FieldUtils.antt =====
-- include/ghex/structured/field_utils.hpp and include/ghex/common/utils.hpp: strides, the coordinate of
-- an index, and the loop nest over a region of a field. Dimensions stand in the order of the layout,
-- the one with the largest stride first.
pub mod Order
use ghex.Base.{ℕ, zero, suc, ◌+◌, ◌-◌, ◌*◌, ◌/◌, List, [], ◌∷◌, ◌++◌}
use ghex.Base.Vec.{Vec, nil, cons, head}

-- `compute_strides::apply`, from a stride of `unit` in the last dimension.
unfoldable pub compute_strides : {n : ℕ} → ℕ → Vec ℕ n → Vec ℕ n
compute_strides unit nil = nil
compute_strides unit (cons e nil) = cons unit nil
compute_strides unit (cons e (cons f v)) =
    let strides = compute_strides unit (cons f v) in cons (head strides * f) strides

-- The one in bytes, with a padding after the last dimension.
unfoldable pub compute_byte_strides : {n : ℕ} → ℕ → ℕ → Vec ℕ n → Vec ℕ n
compute_byte_strides size_of padding nil = nil
compute_byte_strides size_of padding (cons e nil) = cons size_of nil
compute_byte_strides size_of padding (cons e (cons f nil)) =
    cons (size_of * f + padding) (cons size_of nil)
compute_byte_strides size_of padding (cons e (cons f (cons g v))) =
    let strides = compute_byte_strides size_of padding (cons f (cons g v)) in
    cons (head strides * f) strides

-- `compute_coordinate::apply`
unfoldable pub compute_coordinate : {n : ℕ} → Vec ℕ n → ℕ → Vec ℕ n
compute_coordinate nil i = nil
compute_coordinate (cons s strides) i = cons (i / s) (compute_coordinate strides (i - i / s * s))

-- A dimension of the loop nest: the first coordinate in memory, which is `first + coordinate_offset`,
-- the number of coordinates up to the last, and the stride.
pub record LoopDim : Type 0 where
  pub start : ℕ
  pub extent : ℕ
  pub byte_stride : ℕ

-- One loop, with `n` rounds to go from the memory coordinate `i` on; `f` is the nest inside.
unfoldable pub rounds : (ℕ → ℕ → List (ℕ × ℕ)) → ℕ → ℕ → ℕ → ℕ → ℕ → List (ℕ × ℕ)
rounds f byte_stride offset i iter zero = []
rounds f byte_stride offset i iter (suc n) =
    f (offset + i * byte_stride) iter ++ rounds f byte_stride offset (i + 1) (iter + 1) n

-- `for_loop_pointer_arithmetic::apply`: the offset in the field, in bytes, and `iter`, the index in the
-- region, of each call of the functor, whose second argument is `iter` times the last dimension's
-- stride.
unfoldable pub loop_nest : {n : ℕ} → Vec LoopDim n → ℕ → ℕ → List (ℕ × ℕ)
unfolding rounds
loop_nest nil offset iter = (offset, iter) ∷ []
loop_nest (cons d ds) offset iter =
    rounds (loop_nest ds) d.byte_stride offset d.start (iter * d.extent) d.extent
