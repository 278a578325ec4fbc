-- ===== src/Util/DimsMap.antt =====
-- include/ghex/util/distribution.hpp: `dims_map<N>`, the extents of a hypercube, its partial
-- products and the coordinate of a scalar index. `size_type` is int; extents and indices are
-- not negative here, and products are taken not to overflow.
pub mod Laws
use ghex.Base.{ℕ, ◌+◌, ◌-◌, ◌*◌, ◌/◌, Bool, true, false, if◌then◌else◌}
use ghex.Base.Vec.{Vec, nil, cons, fill, head}

pub record DimsMap (n : ℕ) : Type 0 where
  pub reverse : Bool
  pub dims : Vec ℕ n
  pub size : ℕ
  pub partial_product : Vec ℕ n

-- The default constructor: unit extents.
unfoldable pub unit : (n : ℕ) → DimsMap n
unit n = record { reverse = false; dims = fill n 1; size = 1; partial_product = fill n 1 }

-- `for (auto s : m_dims) m_size *= s;`
unfoldable pub size_loop : {n : ℕ} → ℕ → Vec ℕ n → ℕ
size_loop acc nil = acc
size_loop acc (cons d v) = size_loop (acc * d) v

-- `m_partial_product[N-1] = 1`, then downwards `[i-1] = m_dims[i] * m_partial_product[i]`.
unfoldable pub reverse_products : {n : ℕ} → Vec ℕ n → Vec ℕ n
reverse_products nil = nil
reverse_products (cons d nil) = cons 1 nil
reverse_products (cons d (cons e v)) = let ps = reverse_products (cons e v) in cons (e * head ps) ps

-- `m_partial_product[0] = 1`, then upwards `[i] = m_dims[i-1] * m_partial_product[i-1]`.
unfoldable pub forward_products : {n : ℕ} → ℕ → Vec ℕ n → Vec ℕ n
forward_products p nil = nil
forward_products p (cons d v) = cons p (forward_products (d * p) v)

unfoldable pub make : {n : ℕ} → Vec ℕ n → Bool → DimsMap n
unfolding size_loop reverse_products forward_products
make dims reverse = record {
  reverse = reverse;
  dims = dims;
  size = size_loop 1 dims;
  partial_product = if reverse then reverse_products dims else forward_products 1 dims;
}

-- The loop of `operator()` from the first dimension on; `idx` is what is left of the index.
unfoldable pub upward : {n : ℕ} → ℕ → Vec ℕ n → Vec ℕ n
upward idx nil = nil
upward idx (cons p ps) = cons (idx / p) (upward (idx - idx / p * p) ps)

-- The loop from the last dimension down; the second component is what is left of the index.
unfoldable pub downward : {n : ℕ} → ℕ → Vec ℕ n → Vec ℕ n × ℕ
downward idx nil = (nil, idx)
downward idx (cons p ps) =
    let (res, rest) = downward idx ps in (cons (rest / p) res, rest - rest / p * p)

unfoldable pub coord : {n : ℕ} → DimsMap n → ℕ → Vec ℕ n
unfolding upward downward
coord m idx = if m.reverse then upward idx m.partial_product else (downward idx m.partial_product).0
