-- ===== src/Util/Decomposition.antt =====
-- include/ghex/util/decomposition.hpp: `hierarchical_decomposition<D>`, a layout of four levels
-- (nodes, numa nodes, ranks, threads). Domains are numbered rank by rank, thread by thread.
pub mod Laws
use ghex.Base.{ℕ, ◌+◌, ◌*◌}
use ghex.Base.Vec.{Vec, nil, cons}
use ghex.Util.ResourceLayout
use ghex.Util.ResourceLayout.{Layout}

abbrev pub Decomposition : ℕ → Type 0
Decomposition d = Layout d 4

unfoldable pub make : {d : ℕ} → Vec ℕ d → Vec ℕ d → Vec ℕ d → Vec ℕ d → Decomposition d
unfolding ResourceLayout.make
make node numa rank thread =
    ResourceLayout.make (cons node (cons numa (cons rank (cons thread nil))))

module _ {d : ℕ} (h : Decomposition d) where
  unfoldable pub size : ℕ
  size = h.dist.size

  unfoldable pub threads_per_rank : ℕ
  unfolding ResourceLayout.relative_size
  threads_per_rank = ResourceLayout.relative_size h 3

  unfoldable pub ranks_per_numa : ℕ
  unfolding ResourceLayout.relative_size
  ranks_per_numa = ResourceLayout.relative_size h 2

  unfoldable pub numas_per_node : ℕ
  unfolding ResourceLayout.relative_size
  numas_per_node = ResourceLayout.relative_size h 1

  unfoldable pub nodes : ℕ
  unfolding ResourceLayout.relative_size
  nodes = ResourceLayout.relative_size h 0

  -- The four overloads that take a domain index.
  unfoldable pub node_index : ℕ → ℕ
  unfolding ResourceLayout.index
  node_index idx = ResourceLayout.index h 0 idx

  unfoldable pub numa_index : ℕ → ℕ
  unfolding ResourceLayout.index
  numa_index idx = ResourceLayout.index h 1 idx

  unfoldable pub rank_index : ℕ → ℕ
  unfolding ResourceLayout.index
  rank_index idx = ResourceLayout.index h 2 idx

  unfoldable pub thread_index : ℕ → ℕ
  unfolding ResourceLayout.index
  thread_index idx = ResourceLayout.index h 3 idx

  unfoldable pub node_resource : ℕ → ℕ
  unfolding ResourceLayout.relative_resource
  node_resource idx = ResourceLayout.relative_resource h 0 idx

  unfoldable pub numa_resource : ℕ → ℕ
  unfolding ResourceLayout.relative_resource
  numa_resource idx = ResourceLayout.relative_resource h 1 idx

  -- The domain index of a rank's thread, in every overload that takes the two.
  unfoldable pub domain_of : ℕ → ℕ → ℕ
  unfolding threads_per_rank
  domain_of rank thread = rank * threads_per_rank + thread

  unfoldable pub coordinate_of : ℕ → ℕ → Vec ℕ d
  unfolding ResourceLayout.spatial domain_of
  coordinate_of rank thread = ResourceLayout.spatial h (domain_of rank thread)
