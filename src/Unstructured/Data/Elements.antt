-- ===== src/Unstructured/Data/Elements.antt =====
-- include/ghex/unstructured/user_concepts.hpp: the loops of `get` and `set` as copies of elements.
use ghex.Base.{
  ℕ, zero, suc, ◌+◌, ◌*◌, ◌≡◌, refl, sym, ap, ap₂, ◌∙◌, List, [], ◌∷◌, ◌++◌, length, length-append,
  arith,
}
use ghex.Communication.Memory.{Memory, memcpy, gather, scatter}
use ghex.Communication.Packing.{Packing}
use ghex.Unstructured.Data.{
  IterationSpace, DataDescriptor, num_elements, address, get_levels, get_vertices, get, set_levels,
  set_vertices, set, pack, unpack,
}

-- The addresses of the values of an iteration space, in the order of the loops.
unfoldable pub levels_from : DataDescriptor → ℕ → ℕ → ℕ → List ℕ
unfolding address
levels_from d v level zero = []
levels_from d v level (suc n) = address d v level ∷ levels_from d v (level + 1) n

unfoldable pub addresses : DataDescriptor → List ℕ → ℕ → List ℕ
unfolding levels_from
addresses d [] levels = []
addresses d (v ∷ vs) levels = levels_from d v 0 levels ++ addresses d vs levels

pub length-levels_from : (d : DataDescriptor) (v level n : ℕ) → length (levels_from d v level n) ≡ n
unfolding levels_from
length-levels_from d v level zero = refl
length-levels_from d v level (suc n) = ap suc (length-levels_from d v (level + 1) n)

pub length-addresses :
    (d : DataDescriptor) (vs : List ℕ) (levels : ℕ)
    → length (addresses d vs levels) ≡ length vs * levels
unfolding addresses
length-addresses d [] levels = omega arith
length-addresses d (v ∷ vs) levels =
    length-append (levels_from d v 0 levels) (addresses d vs levels)
    ∙ ap₂ (λ x y. x + y) (length-levels_from d v 0 levels) (length-addresses d vs levels)
    ∙ omega arith

gather-append :
    (size : ℕ) (field : Memory) (xs ys : List ℕ) (b : Memory) (at : ℕ)
    → gather size field (xs ++ ys) b at
      ≡ gather size field ys (gather size field xs b at) (at + length xs * size)
unfolding gather
gather-append size field [] ys b at = ap (gather size field ys b) (omega arith)
gather-append size field (x ∷ xs) ys b at =
    gather-append size field xs ys (memcpy b at field x size) (at + size)
    ∙ ap (gather size field ys (gather size field xs (memcpy b at field x size) (at + size)))
        (omega arith)

scatter-append :
    (size : ℕ) (field : Memory) (xs ys : List ℕ) (b : Memory) (at : ℕ)
    → scatter size field (xs ++ ys) b at
      ≡ scatter size (scatter size field xs b at) ys b (at + length xs * size)
unfolding scatter
scatter-append size field [] ys b at = ap (scatter size field ys b) (omega arith)
scatter-append size field (x ∷ xs) ys b at =
    scatter-append size (memcpy field x b at size) xs ys b (at + size)
    ∙ ap (scatter size (scatter size (memcpy field x b at size) xs b (at + size)) ys b)
        (omega arith)

get_levels-gather :
    (d : DataDescriptor) (field : Memory) (v level n : ℕ) (b : Memory) (at : ℕ)
    → get_levels d field v level n (b, at)
      ≡ (gather d.size_of field (levels_from d v level n) b at, at + n * d.size_of)
unfolding get_levels gather levels_from
get_levels-gather d field v level zero b at = ap (λ x. (b, x)) (omega arith)
get_levels-gather d field v level (suc n) b at =
    get_levels-gather d field v (level + 1) n (memcpy b at field (address d v level) d.size_of)
      (at + d.size_of)
    ∙ ap₂ (λ x y. (x, y)) refl (omega arith)

pub get_vertices-gather :
    (d : DataDescriptor) (field : Memory) (vs : List ℕ) (levels : ℕ) (b : Memory) (at : ℕ)
    → (get_vertices d field vs levels (b, at)).0
      ≡ gather d.size_of field (addresses d vs levels) b at
unfolding get_vertices addresses gather
get_vertices-gather d field [] levels b at = refl
get_vertices-gather d field (v ∷ vs) levels b at =
    ap (λ s. (get_vertices d field vs levels s).0) (get_levels-gather d field v 0 levels b at)
    ∙ get_vertices-gather d field vs levels _ _
    ∙ ap
        (λ n.
          gather d.size_of field (addresses d vs levels)
            (gather d.size_of field (levels_from d v 0 levels) b at) (at + n * d.size_of))
        (sym (length-levels_from d v 0 levels))
    ∙ sym (gather-append d.size_of field (levels_from d v 0 levels) (addresses d vs levels) b at)

set_levels-scatter :
    (d : DataDescriptor) (buffer : Memory) (v level n : ℕ) (field : Memory) (at : ℕ)
    → set_levels d buffer v level n (field, at)
      ≡ (scatter d.size_of field (levels_from d v level n) buffer at, at + n * d.size_of)
unfolding set_levels scatter levels_from
set_levels-scatter d buffer v level zero field at = ap (λ x. (field, x)) (omega arith)
set_levels-scatter d buffer v level (suc n) field at =
    set_levels-scatter d buffer v (level + 1) n
      (memcpy field (address d v level) buffer at d.size_of) (at + d.size_of)
    ∙ ap₂ (λ x y. (x, y)) refl (omega arith)

pub set_vertices-scatter :
    (d : DataDescriptor) (buffer : Memory) (vs : List ℕ) (levels : ℕ) (field : Memory) (at : ℕ)
    → (set_vertices d buffer vs levels (field, at)).0
      ≡ scatter d.size_of field (addresses d vs levels) buffer at
unfolding set_vertices addresses scatter
set_vertices-scatter d buffer [] levels field at = refl
set_vertices-scatter d buffer (v ∷ vs) levels field at =
    ap (λ s. (set_vertices d buffer vs levels s).0)
      (set_levels-scatter d buffer v 0 levels field at)
    ∙ set_vertices-scatter d buffer vs levels _ _
    ∙ ap
        (λ n.
          scatter d.size_of (scatter d.size_of field (levels_from d v 0 levels) buffer at)
            (addresses d vs levels) buffer (at + n * d.size_of))
        (sym (length-levels_from d v 0 levels))
    ∙ sym (
        scatter-append d.size_of field (levels_from d v 0 levels) (addresses d vs levels) buffer at)

-- A data descriptor with the containers that `make_pattern` builds, of one iteration space: `get` and
-- `set`, whatever the number of levels and the vertices, copy the values at the same addresses, one
-- for each element that `num_elements` counts, in the same order.
unfoldable pub unstructured_packing : Packing DataDescriptor IterationSpace
unfolding num_elements pack unpack get set
unstructured_packing = record {
  domain_id = λ d. d.domain_id;
  device_id = λ d. 0;
  size_of = λ d. d.size_of;
  align_of = λ d. d.align_of;
  num_components = λ d. 1;
  num_elements = λ is. num_elements (is ∷ []);
  pack = λ d is. pack d (is ∷ []);
  unpack = λ d is. unpack d (is ∷ []);
  elements = λ d is. addresses d is.local_indices is.levels;
  length-elements = λ d is. length-addresses d is.local_indices is.levels ∙ omega arith;
  pack-gather = λ d is field b at. get_vertices-gather d field is.local_indices is.levels b at;
  unpack-scatter = λ d is field b at. set_vertices-scatter d b is.local_indices is.levels field at;
}
