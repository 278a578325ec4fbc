-- ===== src/Util/Decomposition/Laws.antt =====
-- include/ghex/util/decomposition.hpp: domain indices as pairs of a rank and a thread.
use ghex.Base.{ℕ, ◌%◌, ◌<◌, ◌≡◌, ◌∙◌, arith}
use ghex.Base.Digits.{last_digit_one, middle_digit_one}
use ghex.Base.Vec.{Vec, nil, cons}
use ghex.Util.DimsMap
use ghex.Util.ResourceLayout.Relative.{index-suc}
use ghex.Util.Decomposition.{
  make, threads_per_rank, ranks_per_numa, thread_index, rank_index, domain_of,
}

module _ {d : ℕ} (node numa rank thread : Vec ℕ d) where
  -- For a rank and a thread below the number of threads of a rank, and at least one rank on a numa
  -- node: the domain of the two has that thread's index, and its rank index is the rank modulo the
  -- number of ranks of a numa node.
  pub domain_of_indices :
      (r t : ℕ)
      → t < threads_per_rank (make node numa rank thread)
      → 0 < ranks_per_numa (make node numa rank thread)
      → let h = make node numa rank thread in
        (thread_index h (domain_of h r t) ≡ t)
        × (rank_index h (domain_of h r t) ≡ r % ranks_per_numa h)
  unfolding make threads_per_rank ranks_per_numa thread_index rank_index domain_of DimsMap.make
  domain_of_indices r t h pos = (
    index-suc levels 2 _ (omega arith) ∙ last_digit_one r _ t h,
    index-suc levels 1 _ (omega arith) ∙ middle_digit_one _ r _ t h pos,
  )
    where
      levels : Vec (Vec ℕ d) 4
      levels = cons node (cons numa (cons rank (cons thread nil)))
