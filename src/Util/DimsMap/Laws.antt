-- ===== src/Util/DimsMap/Laws.antt =====
-- include/ghex/util/distribution.hpp: coordinates and scalar indices of a `dims_map`.
use ghex.Base.{ℕ, suc, ◌+◌, ◌-◌, ◌*◌, ◌/◌, ◌<◌, ◌≡◌, refl, ap, ap₂, Bool, true, false, arith, ◌∙◌}
use ghex.Base.Digits.{div-lt, rest-eq-mod, div_unique, mod_unique}
use ghex.Base.Vec.{Vec, nil, cons}
use native.Mathlib.Nat.{mul_assoc, zero-add, add-zero}
use ghex.Util.DimsMap.{size_loop, reverse_products, forward_products, make, upward, downward, coord}

-- The scalar index of a coordinate: the sum of its components times the partial products.
abbrev pub linear : {n : ℕ} → Vec ℕ n → Vec ℕ n → ℕ
linear nil nil = 0
linear (cons x v) (cons p ps) = x * p + linear v ps

-- Every component is below its extent.
abbrev pub Within : {n : ℕ} → Vec ℕ n → Vec ℕ n → Type 0
Within nil nil = Unit {0}
Within (cons x v) (cons d ds) = (x < d) × Within v ds

abbrev pub product : {n : ℕ} → Vec ℕ n → ℕ
product nil = 1
product (cons d v) = d * product v

pub size_loop-product : {n : ℕ} (acc : ℕ) (v : Vec ℕ n) → size_loop acc v ≡ acc * product v
unfolding size_loop
size_loop-product acc nil = omega arith
size_loop-product acc (cons d v) = size_loop-product (acc * d) v ∙ mul_assoc acc d (product v)

pub reverse_products-cons :
    {n : ℕ} (d : ℕ) (v : Vec ℕ n)
    → reverse_products (cons d v) ≡ cons (product v) (reverse_products v)
unfolding reverse_products
reverse_products-cons d nil = refl
reverse_products-cons d (cons e v) = rw (reverse_products-cons e v) refl

pub reverse-Within :
    {n : ℕ} (v : Vec ℕ n) (i : ℕ)
    → i < product v
    → Within (upward i (reverse_products v)) v
      × (linear (upward i (reverse_products v)) (reverse_products v) ≡ i)
unfolding upward reverse_products
reverse-Within nil i h = (tt, omega arith)
reverse-Within (cons d v) i h =
    let (w, e) = reverse-Within v (i - i / product v * product v) (grind arith) in
    rw (reverse_products-cons d v) ((div-lt i (product v) d h, w), omega (arith, e))

reverse-inverse :
    {n : ℕ} (v c : Vec ℕ n)
    → Within c v
    → (linear c (reverse_products v) < product v)
      × (upward (linear c (reverse_products v)) (reverse_products v) ≡ c)
unfolding upward reverse_products
reverse-inverse nil nil w = (omega arith, refl)
reverse-inverse (cons d v) (cons x c) w =
    let (b, e) = reverse-inverse v c w.1 in
    let l : ℕ = linear c (reverse_products v) in
    let p : ℕ = product v in
    rw (reverse_products-cons d v) (
      grind arith,
      ap₂ cons (div_unique x p l b) (
          ap (λ k. upward k (reverse_products v)) (rest-eq-mod (x * p + l) p ∙ mod_unique x p l b)
          ∙ e),
    )

forward-Within :
    {n : ℕ} (v : Vec ℕ n) (p i : ℕ)
    → i < product v * p
    → Within (downward i (forward_products p v)).0 v
      × (linear (downward i (forward_products p v)).0 (forward_products p v)
            + (downward i (forward_products p v)).1
          ≡ i)
      × ((downward i (forward_products p v)).1 < p)
unfolding downward forward_products
forward-Within nil p i h = (tt, omega arith, omega arith)
forward-Within (cons d v) p i h =
    let (w, e, b) = forward-Within v (d * p) i (grind arith) in
    let r : ℕ = (downward i (forward_products (d * p) v)).1 in
    ((div-lt r p d b, w), omega (arith, e), grind arith)

forward-inverse :
    {n : ℕ} (v c : Vec ℕ n) (p r : ℕ)
    → Within c v
    → r < p
    → (linear c (forward_products p v) + r < product v * p)
      × (downward (linear c (forward_products p v) + r) (forward_products p v) ≡ (c, r))
unfolding downward forward_products
forward-inverse nil nil p r w h = (omega arith, rw zero-add)
forward-inverse (cons d v) (cons x c) p r w h =
    let ps = forward_products (d * p) v in
    let (b, e) = forward-inverse v c (d * p) (x * p + r) w.1 (grind arith) in
    let shift : x * p + linear c ps + r ≡ linear c ps + (x * p + r) = omega arith in
    (
      rw shift (grind arith),
      ap (step p) (ap (λ k. downward k ps) shift ∙ e)
          ∙ ap₂ pair (ap (λ k. cons k c) (div_unique x p r h))
              (rest-eq-mod (x * p + r) p ∙ mod_unique x p r h),
    )
  where
    step : {n : ℕ} → ℕ → Vec ℕ n × ℕ → Vec ℕ (suc n) × ℕ
    step p q = (cons (q.1 / p) q.0, q.1 - q.1 / p * p)

    pair : {n : ℕ} → Vec ℕ n → ℕ → Vec ℕ n × ℕ
    pair a b = (a, b)

pub product-size : {n : ℕ} (v : Vec ℕ n) (reverse : Bool) → (make v reverse).size ≡ product v
unfolding make
product-size v reverse = omega (arith, size_loop-product 1 v)

-- An index below the size has a coordinate within the extents, and the sum of the coordinate's
-- components times the partial products is that index, for either order of strides.
pub linear-coord :
    {n : ℕ} (dims : Vec ℕ n) (reverse : Bool) (idx : ℕ)
    → idx < (make dims reverse).size
    → Within (coord (make dims reverse) idx) dims
      × (linear (coord (make dims reverse) idx) (make dims reverse).partial_product ≡ idx)
unfolding make coord
linear-coord dims true idx h = reverse-Within dims idx (omega (arith, size_loop-product 1 dims))
linear-coord dims false idx h =
    let (w, e, b) = forward-Within dims 1 idx (omega (arith, size_loop-product 1 dims)) in
    (w, omega (arith, e, b))

-- For every coordinate within the extents, the sum of its components times the partial products is
-- an index below the size, and the coordinate of that index is the given one, for either order of
-- strides.
pub coord-linear :
    {n : ℕ} (dims : Vec ℕ n) (reverse : Bool) (c : Vec ℕ n)
    → Within c dims
    → (linear c (make dims reverse).partial_product < (make dims reverse).size)
      × (coord (make dims reverse) (linear c (make dims reverse).partial_product) ≡ c)
unfolding make coord
coord-linear dims true c w =
    let (b, e) = reverse-inverse dims c w in (omega (arith, size_loop-product 1 dims, b), e)
coord-linear dims false c w =
    let (b, e) = forward-inverse dims c 1 0 w (omega arith) in
    (omega (arith, size_loop-product 1 dims, b), ap (λ q. q.0) (rw add-zero at e))
