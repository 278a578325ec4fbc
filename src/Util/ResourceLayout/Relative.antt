-- ===== src/Util/ResourceLayout/Relative.antt =====
-- include/ghex/util/resource_layout.hpp: resource indices relative to a level.
use native.Mathlib.Nat.{mul_assoc, mod-mod_of_dvd, dvd-mul_left}
use ghex.Base.{ℕ, zero, suc, ◌-◌, ◌*◌, ◌/◌, ◌%◌, ◌<◌, ◌≡◌, refl, ap, ap₂, sym, false, arith, ◌∙◌}
use ghex.Base.Digits.{rest-eq-mod}
use ghex.Base.Vec
use ghex.Base.Vec.{Vec, nil, cons}
use ghex.Util.DimsMap
use ghex.Util.DimsMap.{DimsMap, upward, reverse_products}
use ghex.Util.DimsMap.Laws.{product, reverse_products-cons, product-size}
use ghex.Util.ResourceLayout.{make, sizes, level_maps, index, size_1d, generate, relative_resource}

-- What is left of the index `k` before component `j` is taken.
abbrev left : {n : ℕ} → Vec ℕ n → ℕ → ℕ → ℕ
left ps k zero = k
left nil k (suc j) = k
left (cons p ps) k (suc j) = left ps (k - k / p * p) j

get_or-upward :
    {n : ℕ} (ps : Vec ℕ n) (k j : ℕ)
    → Vec.get_or (upward k ps) j 0 ≡ left ps k j / Vec.get_or ps j 0
unfolding upward
get_or-upward nil k zero = omega arith
get_or-upward nil k (suc j) = omega arith
get_or-upward (cons p ps) k zero = refl
get_or-upward (cons p ps) k (suc j) = get_or-upward ps (k - k / p * p) j

left-suc :
    {n : ℕ} (ps : Vec ℕ n) (k j : ℕ)
    → left ps k (suc j) ≡ left ps k j - Vec.get_or (upward k ps) j 0 * Vec.get_or ps j 0
unfolding upward
left-suc nil k zero = omega arith
left-suc nil k (suc j) = omega arith
left-suc (cons p ps) k zero = refl
left-suc (cons p ps) k (suc j) = left-suc ps (k - k / p * p) j

product-get_or :
    {n : ℕ} (v : Vec ℕ n) (j : ℕ)
    → j < n
    → (q : ℕ) × (product v ≡ q * Vec.get_or (reverse_products v) j 0)
product-get_or nil j h = elim h [ ]
product-get_or (cons d v) zero h = (d, rw (reverse_products-cons d v))
product-get_or (cons d v) (suc j) h =
    let (q, e) = product-get_or v j (omega arith) in
    (d * q, rw (reverse_products-cons d v, e) (sym (mul_assoc d q _)))

mod-mod_mul : (k q p : ℕ) → k % (q * p) % p ≡ k % p
mod-mod_mul k q p = mod-mod_of_dvd p k (dvd-mul_left p q)

left-mod :
    {n : ℕ} (v : Vec ℕ n) (k j : ℕ)
    → j < n
    → left (reverse_products v) k (suc j) ≡ k % Vec.get_or (reverse_products v) j 0
left-mod nil k j h = elim h [ ]
left-mod (cons d v) k zero h = rw (reverse_products-cons d v) (rest-eq-mod k (product v))
left-mod (cons d v) k (suc j) h =
    let p = product v in
    let (q, e) = product-get_or v j (omega arith) in
    rw (reverse_products-cons d v) (
      left-mod v (k - k / p * p) j (omega arith)
      ∙ ap (λ r. r % Vec.get_or (reverse_products v) j 0) (rest-eq-mod k p ∙ ap (λ t. k % t) e)
      ∙ mod-mod_mul k q _)

size_1d-generate :
    {d n : ℕ} (v : Vec ℕ d) (vs : Vec (Vec ℕ d) n) (j : ℕ)
    → j < n
    → size_1d (generate (level_maps (cons v vs))) j
      ≡ Vec.get_or (reverse_products (sizes (level_maps (cons v vs)))) j 0
unfolding size_1d generate
size_1d-generate v nil j h = elim h [ ]
size_1d-generate v (cons w vs) zero h =
    product-size (sizes (level_maps (cons w vs))) false
    ∙ ap (λ t. Vec.get_or t 0 0)
        (sym (reverse_products-cons (DimsMap.make v false).size (sizes (level_maps (cons w vs)))))
size_1d-generate v (cons w vs) (suc j) h =
    size_1d-generate w vs j (omega arith)
    ∙ ap (λ t. Vec.get_or t (suc j) 0)
        (sym (reverse_products-cons (DimsMap.make v false).size (sizes (level_maps (cons w vs)))))

relative_resource-left :
    {d n : ℕ} (v : Vec ℕ d) (vs : Vec (Vec ℕ d) n) (i idx : ℕ)
    → i < n
    → relative_resource (make (cons v vs)) i idx
      ≡ left (reverse_products (sizes (level_maps (cons v vs)))) idx (suc i)
unfolding relative_resource make DimsMap.coord DimsMap.make
relative_resource-left v vs zero idx h =
    ap (λ t. idx - index (make (cons v vs)) 0 idx * t) (size_1d-generate v vs 0 h)
    ∙ sym (left-suc (reverse_products (sizes (level_maps (cons v vs)))) idx 0)
relative_resource-left v vs (suc i) idx h =
    ap₂ (λ r t. r - index (make (cons v vs)) (suc i) idx * t)
      (relative_resource-left v vs i idx (omega arith)) (size_1d-generate v vs (suc i) h)
    ∙ sym (left-suc (reverse_products (sizes (level_maps (cons v vs)))) idx (suc i))

-- On each level but the last, the resource index relative to the level is the remainder of the
-- global index by the number of resources on the levels below.
pub relative_resource-mod :
    {d n : ℕ} (v : Vec ℕ d) (vs : Vec (Vec ℕ d) n) (i idx : ℕ)
    → i < n
    → relative_resource (make (cons v vs)) i idx ≡ idx % size_1d (make (cons v vs)).dist_1d i
unfolding make
relative_resource-mod v vs i idx h =
    relative_resource-left v vs i idx h
    ∙ left-mod (sizes (level_maps (cons v vs))) idx i (omega arith)
    ∙ ap (λ t. idx % t) (sym (size_1d-generate v vs i h))

-- The index on a level, from the remainder of the global index.
pub index-suc :
    {d n : ℕ} (vs : Vec (Vec ℕ d) n) (i idx : ℕ)
    → i < n
    → index (make vs) (suc i) idx
      ≡ idx
        % Vec.get_or (reverse_products (sizes (level_maps vs))) i 0
        / Vec.get_or (reverse_products (sizes (level_maps vs))) (suc i) 0
unfolding index make DimsMap.coord DimsMap.make
index-suc vs i idx h =
    get_or-upward (reverse_products (sizes (level_maps vs))) idx (suc i)
    ∙ ap (λ t. t / Vec.get_or (reverse_products (sizes (level_maps vs))) (suc i) 0)
        (left-mod (sizes (level_maps vs)) idx i h)
