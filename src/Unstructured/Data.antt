-- ===== src/Unstructured/Data.antt =====
-- include/ghex/unstructured/user_concepts.hpp: the data descriptor of a field in the host's memory; and
-- include/ghex/unstructured/pattern.hpp: the iteration spaces it packs.
pub mod Elements
pub mod Vertices
use ghex.Base.{
  ℕ, zero, suc, ◌+◌, ◌*◌, ◌≡◌, refl, sym, ap, ap₂, ◌∙◌, List, [], ◌∷◌, ◌++◌, length, length-append,
  arith,
}
use ghex.Communication.Memory.{Memory, memcpy, gather, scatter}

pub record IterationSpace : Type 0 where
  pub local_indices : List ℕ
  pub levels : ℕ

-- `pattern::num_elements`
unfoldable pub num_elements : List IterationSpace → ℕ
num_elements [] = 0
num_elements (is ∷ c) = length is.local_indices * is.levels + num_elements c

-- The descriptor, with the size and the alignment of its value type. `values` is the address of the
-- field's first value.
pub record DataDescriptor : Type 0 where
  pub domain_id : ℕ
  pub domain_size : ℕ
  pub levels : ℕ
  pub values : ℕ
  pub size_of : ℕ
  pub align_of : ℕ

-- `operator()`
unfoldable pub address : DataDescriptor → ℕ → ℕ → ℕ
address d local_v level = d.values + (local_v * d.levels + level) * d.size_of

-- `get`: the loop over the levels, with `n` of them to go, and that over the vertices. The state is
-- the buffer and the pointer into it.
unfoldable pub get_levels : DataDescriptor → Memory → ℕ → ℕ → ℕ → Memory × ℕ → Memory × ℕ
unfolding memcpy address
get_levels d field local_v level zero s = s
get_levels d field local_v level (suc n) s =
    get_levels d field local_v (level + 1) n
      (memcpy s.0 s.1 field (address d local_v level) d.size_of, s.1 + d.size_of)

unfoldable pub get_vertices : DataDescriptor → Memory → List ℕ → ℕ → Memory × ℕ → Memory × ℕ
unfolding get_levels
get_vertices d field [] levels s = s
get_vertices d field (v ∷ vs) levels s =
    get_vertices d field vs levels (get_levels d field v 0 levels s)

unfoldable pub get : DataDescriptor → Memory → IterationSpace → Memory → ℕ → Memory
unfolding get_vertices
get d field is buffer at = (get_vertices d field is.local_indices is.levels (buffer, at)).0

-- `set`: the state is the field's memory and the pointer into the buffer.
unfoldable pub set_levels : DataDescriptor → Memory → ℕ → ℕ → ℕ → Memory × ℕ → Memory × ℕ
unfolding memcpy address
set_levels d buffer local_v level zero s = s
set_levels d buffer local_v level (suc n) s =
    set_levels d buffer local_v (level + 1) n
      (memcpy s.0 (address d local_v level) buffer s.1 d.size_of, s.1 + d.size_of)

unfoldable pub set_vertices : DataDescriptor → Memory → List ℕ → ℕ → Memory × ℕ → Memory × ℕ
unfolding set_levels
set_vertices d buffer [] levels s = s
set_vertices d buffer (v ∷ vs) levels s =
    set_vertices d buffer vs levels (set_levels d buffer v 0 levels s)

unfoldable pub set : DataDescriptor → Memory → IterationSpace → Memory → ℕ → Memory
unfolding set_vertices
set d field is buffer at = (set_vertices d buffer is.local_indices is.levels (field, at)).0

-- `pack` and `unpack`: the pointer into the buffer is not moved from one iteration space to the next.
unfoldable pub pack : DataDescriptor → List IterationSpace → Memory → Memory → ℕ → Memory
unfolding get
pack d [] field buffer at = buffer
pack d (is ∷ c) field buffer at = pack d c field (get d field is buffer at) at

unfoldable pub unpack : DataDescriptor → List IterationSpace → Memory → Memory → ℕ → Memory
unfolding set
unpack d [] field buffer at = field
unpack d (is ∷ c) field buffer at = unpack d c (set d field is buffer at) buffer at
