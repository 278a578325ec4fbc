-- ===== src/Allocator/Pool.antt =====
-- include/ghex/allocator/pool_allocator_adaptor.hpp: the pool of freed blocks. A pointer is a number;
-- what the underlying allocator returns is a parameter.
pub mod Blocks
use ghex.Base.{ℕ, List, [], ◌∷◌, ltb, none, some}
use ghex.Base.OrderedMap.{lookup, upsert}

-- `m_map`: the freed blocks by their sizes, each vector with its last element first.
abbrev pub Pool : Type 0
Pool = List (ℕ × List ℕ)

-- `pool_impl::allocate`, where `block` is what the underlying allocator returns if it is asked.
unfoldable pub allocate : ℕ → ℕ → Pool → ℕ × Pool
unfolding lookup upsert
allocate n block pool = elim (lookup ltb n pool) [
  | none ↦ (block, pool)
  | some [] ↦ (block, pool)
  | some (ptr ∷ rest) ↦ (ptr, upsert ltb n rest (λ blocks. rest) pool)
]

-- `pool_impl::deallocate`
unfoldable pub deallocate : ℕ → ℕ → Pool → Pool
unfolding upsert
deallocate ptr n pool = upsert ltb n (ptr ∷ []) (λ blocks. ptr ∷ blocks) pool
