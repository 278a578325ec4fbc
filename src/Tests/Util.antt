-- ===== src/Tests/Util.antt =====
-- include/ghex/util and include/ghex/common/coordinate.hpp on concrete inputs.
use ghex.Base.{ℕ, ◌%◌, ◌≡◌, ◌<◌, refl, true, false, arith}
use ghex.Base.Int.{pos, negsuc}
use ghex.Base.Vec.{Vec, nil, cons}
use ghex.Util.DimsMap
use ghex.Util.DimsMap.Laws.{Within, linear, linear-coord, coord-linear}
use ghex.Util.ResourceLayout
use ghex.Util.ResourceLayout.Laws.{spatial-injective}
use ghex.Util.ResourceLayout.Relative.{relative_resource-mod}
use ghex.Util.Decomposition
use ghex.Util.Decomposition.Laws.{domain_of_indices}
use ghex.Common.Coordinate.{Coordinate}
use ghex.Common.Coordinate.Laws.{}

abbrev dims : Vec ℕ 3
dims = cons 4 (cons 2 (cons 3 nil))

coord_forward : DimsMap.coord (DimsMap.make dims false) 21 ≡ cons 1 (cons 1 (cons 2 nil))
unfolding DimsMap.coord DimsMap.make
coord_forward = refl

coord_reverse : DimsMap.coord (DimsMap.make dims true) 21 ≡ cons 3 (cons 1 (cons 0 nil))
unfolding DimsMap.coord DimsMap.make
coord_reverse = refl

linear-coord_example :
    Within (DimsMap.coord (DimsMap.make dims false) 21) dims
    × (linear (DimsMap.coord (DimsMap.make dims false) 21) (DimsMap.make dims false).partial_product
        ≡ 21)
unfolding DimsMap.make
linear-coord_example = linear-coord dims false 21 (omega arith)

coord-linear_example :
    (linear (cons 1 (cons 1 (cons 2 nil))) (DimsMap.make dims true).partial_product
      < (DimsMap.make dims true).size)
    × (DimsMap.coord
          (DimsMap.make dims true)
          (linear (cons 1 (cons 1 (cons 2 nil))) (DimsMap.make dims true).partial_product)
        ≡ cons 1 (cons 1 (cons 2 nil)))
coord-linear_example = coord-linear dims true (cons 1 (cons 1 (cons 2 nil))) (omega arith)

abbrev two_by : ℕ → ℕ → Vec ℕ 2
two_by a b = cons a (cons b nil)

abbrev extents : Vec (Vec ℕ 2) 3
extents = cons (two_by 2 1) (cons (two_by 1 2) (cons (two_by 3 2) nil))

-- The last of the 24 resources sits in the far corner of the 6 x 4 domain.
spatial_last : ResourceLayout.spatial (ResourceLayout.make extents) 23 ≡ two_by 5 3
unfolding ResourceLayout.spatial ResourceLayout.make DimsMap.coord DimsMap.make
spatial_last = refl

abbrev place : ℕ
place = 17

spatial-injective_example : place ≡ place
unfolding ResourceLayout.make DimsMap.make
spatial-injective_example = spatial-injective extents place place (omega arith) (omega arith) refl

relative_resource-mod_example :
    ResourceLayout.relative_resource (ResourceLayout.make extents) 1 23
    ≡ 23 % ResourceLayout.size_1d (ResourceLayout.make extents).dist_1d 1
relative_resource-mod_example =
    relative_resource-mod (two_by 2 1) (cons (two_by 1 2) (cons (two_by 3 2) nil)) 1 23
      (omega arith)

abbrev machine : Decomposition.Decomposition 2
machine = Decomposition.make (two_by 2 1) (two_by 1 2) (two_by 3 1) (two_by 2 2)

-- Rank 7, thread 2: the second rank of its numa node.
domain_of_indices_example :
    (Decomposition.thread_index machine (Decomposition.domain_of machine 7 2) ≡ 2)
    × (Decomposition.rank_index machine (Decomposition.domain_of machine 7 2)
        ≡ 7 % Decomposition.ranks_per_numa machine)
unfolding Decomposition.threads_per_rank Decomposition.ranks_per_numa Decomposition.make
    DimsMap.make
domain_of_indices_example =
    domain_of_indices (two_by 2 1) (two_by 1 2) (two_by 3 1) (two_by 2 2) 7 2 (omega arith)
      (omega arith)

abbrev low : Coordinate 2
low = cons (negsuc 1) (cons (pos 3) nil)

abbrev high : Coordinate 2
high = cons (pos 1) (cons (pos 3) nil)
