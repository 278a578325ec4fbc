-- ===== src/Util/ResourceLayout.antt =====
-- include/ghex/util/resource_layout.hpp: `hierarchical_resource_layout<D, Levels>`, a hypercube at
-- each level that holds the next level's hypercube at each coordinate.
pub mod Laws
pub mod Relative
use ghex.Base.{ℕ, zero, suc, ◌+◌, ◌-◌, ◌*◌, Bool, true, false, List, [], ◌∷◌, Option, none, some}
use ghex.Base.Vec
use ghex.Base.Vec.{Vec, nil, cons, fill, zip_with}
use ghex.Util.DimsMap
use ghex.Util.DimsMap.{DimsMap}

pub record Layout (d levels : ℕ) : Type 0 where
  pub dims : Vec (DimsMap d) levels
  pub dist : DimsMap levels
  pub dist_1d : List ((k : ℕ) × DimsMap k)

abbrev pub sizes : {d n : ℕ} → Vec (DimsMap d) n → Vec ℕ n
sizes = Vec.map (λ m. m.size)

-- `make_dist`: the last level changes fastest.
unfoldable pub make_dist : {d n : ℕ} → Vec (DimsMap d) n → DimsMap n
unfolding DimsMap.make
make_dist dims = DimsMap.make (sizes dims) true

-- `dist_1D_generator::generate`: for each level but the last the distribution of the levels below.
unfoldable pub generate : {d n : ℕ} → Vec (DimsMap d) n → List ((k : ℕ) × DimsMap k)
unfolding DimsMap.make
generate nil = []
generate (cons m nil) = []
generate (cons m (cons l ms)) = (_, DimsMap.make (sizes (cons l ms)) false) ∷ generate (cons l ms)

abbrev pub level_maps : {d n : ℕ} → Vec (Vec ℕ d) n → Vec (DimsMap d) n
level_maps = Vec.map (λ v. DimsMap.make v false)

-- The constructor, from the extents of each level.
unfoldable pub make : {d n : ℕ} → Vec (Vec ℕ d) n → Layout d n
unfolding make_dist generate
make extents = record {
  dims = level_maps extents;
  dist = make_dist (level_maps extents);
  dist_1d = generate (level_maps extents);
}

-- `relative_size<I>` and `index<I>`; a level out of range is a static_assert in the source.
unfoldable pub relative_size : {d n : ℕ} → Layout d n → ℕ → ℕ
relative_size l i = Vec.get_or (sizes l.dims) i 0

unfoldable pub index : {d n : ℕ} → Layout d n → ℕ → ℕ → ℕ
index l i idx = Vec.get_or (DimsMap.coord l.dist idx) i 0

-- `std::get<I>(m_1D_dist).size()`
unfoldable pub size_1d : List ((k : ℕ) × DimsMap k) → ℕ → ℕ
size_1d [] i = 0
size_1d ((k, m) ∷ ms) zero = m.size
size_1d (m ∷ ms) (suc i) = size_1d ms i

unfoldable pub relative_resource : {d n : ℕ} → Layout d n → ℕ → ℕ → ℕ
unfolding index size_1d
relative_resource l zero idx = idx - index l 0 idx * size_1d l.dist_1d 0
relative_resource l (suc i) idx =
    relative_resource l i idx - index l (suc i) idx * size_1d l.dist_1d (suc i)

-- `get_coord`: from the first level to the last, the coordinate so far times the level's extents,
-- plus the coordinate within the level.
unfoldable pub level_step : {d : ℕ} → DimsMap d → ℕ → Vec ℕ d → Vec ℕ d
level_step m i coord = zip_with ◌+◌ (DimsMap.coord m i) (zip_with ◌*◌ coord m.dims)

unfoldable pub get_coord : {d n : ℕ} → Vec (DimsMap d) n → Vec ℕ n → Vec ℕ d → Vec ℕ d
unfolding level_step
get_coord nil nil coord = coord
get_coord (cons m ms) (cons i is) coord = get_coord ms is (level_step m i coord)

unfoldable pub spatial : {d n : ℕ} → Layout d n → ℕ → Vec ℕ d
unfolding get_coord
spatial {d} l idx = get_coord l.dims (DimsMap.coord l.dist idx) (fill d 0)

unfoldable pub last_coord : {d n : ℕ} → Layout d n → Vec ℕ d
unfolding spatial
last_coord l = spatial l (l.dist.size - 1)
