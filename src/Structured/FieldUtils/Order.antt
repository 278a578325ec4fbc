-- ===== src/Structured/FieldUtils/Order.antt =====
-- include/ghex/structured/field_utils.hpp and include/ghex/common/utils.hpp: the order of a loop nest.
use native.Mathlib.Nat.{mul_assoc}
use native.Mathlib.Decide.{dec_lt}
use ghex.Base.{
  ℕ, zero, suc, ◌+◌, ◌-◌, ◌*◌, ◌/◌, ◌<◌, ◌≡◌, refl, sym, subst, ap, ap₂, ◌∙◌, List, length,
  length-append, get_elem?, get_elem?-append_left, get_elem?-append_right, some, arith,
}
use ghex.Base.Digits.{div-lt}
use ghex.Base.Vec.{Vec, nil, cons}
use ghex.Structured.FieldUtils.{
  compute_strides, compute_byte_strides, compute_coordinate, LoopDim, rounds, loop_nest,
}
use ghex.Util.DimsMap.{reverse_products, upward}
use ghex.Util.DimsMap.Laws.{product, linear, Within, reverse_products-cons, reverse-Within}

abbrev pub extents : {n : ℕ} → Vec LoopDim n → Vec ℕ n
extents nil = nil
extents (cons d ds) = cons d.extent (extents ds)

-- The offset in memory of a coordinate of the region.
abbrev pub offset_of : {n : ℕ} → Vec LoopDim n → Vec ℕ n → ℕ
offset_of nil nil = 0
offset_of (cons d ds) (cons x xs) = (d.start + x) * d.byte_stride + offset_of ds xs

strides-cons :
    {n : ℕ} (e : ℕ) (v : Vec ℕ n)
    → compute_strides 1 (cons e v) ≡ cons (product v) (compute_strides 1 v)
unfolding compute_strides
strides-cons e nil = refl
strides-cons e (cons f v) =
    rw (strides-cons f v) (ap (λ x. cons x (cons (product v) (compute_strides 1 v))) (omega arith))

rounds-length :
    (f : ℕ → ℕ → List (ℕ × ℕ)) (p : ℕ)
    → ((o t : ℕ) → length (f o t) ≡ p)
    → (stride offset i iter n : ℕ) → length (rounds f stride offset i iter n) ≡ n * p
unfolding rounds
rounds-length f p h stride offset i iter zero = omega arith
rounds-length f p h stride offset i iter (suc n) =
    length-append (f (offset + i * stride) iter) (rounds f stride offset (i + 1) (iter + 1) n)
    ∙ ap₂ (λ x y. x + y) (h (offset + i * stride) iter)
        (rounds-length f p h stride offset (i + 1) (iter + 1) n)
    ∙ omega arith

loop_nest-length :
    {n : ℕ} (ds : Vec LoopDim n) (offset iter : ℕ)
    → length (loop_nest ds offset iter) ≡ product (extents ds)
unfolding loop_nest
loop_nest-length nil offset iter = refl
loop_nest-length (cons d ds) offset iter =
    rounds-length (loop_nest ds) (product (extents ds)) (loop_nest-length ds) d.byte_stride offset
      d.start (iter * d.extent) d.extent

rounds-get :
    (f : ℕ → ℕ → List (ℕ × ℕ)) (p : ℕ)
    → ((o t : ℕ) → length (f o t) ≡ p)
    → (stride offset i iter n q r : ℕ) (e : ℕ × ℕ) → q < n
    → get_elem? (f (offset + (i + q) * stride) (iter + q)) r ≡ some e
    → get_elem? (rounds f stride offset i iter n) (q * p + r) ≡ some e
unfolding rounds
rounds-get f p h stride offset i iter zero q r e lt g = elim lt [ ]
rounds-get f p h stride offset i iter (suc n) zero r e lt g =
    let first : i ≡ i + 0 = omega arith in
    let index : iter ≡ iter + 0 = omega arith in
    ap (get_elem? (rounds f stride offset i iter (suc n))) {x = 0 * p + r} {y = r} (omega arith)
    ∙ get_elem?-append_left (f (offset + i * stride) iter)
        (rounds f stride offset (i + 1) (iter + 1) n) r e
        (ap₂ (λ x t. get_elem? (f (offset + x * stride) t) r) first index ∙ g)
rounds-get f p h stride offset i iter (suc n) (suc q) r e lt g =
    let next : i + 1 + q ≡ i + suc q = omega arith in
    let index : iter + 1 + q ≡ iter + suc q = omega arith in
    get_elem?-append_right (f (offset + i * stride) iter)
      (rounds f stride offset (i + 1) (iter + 1) n) (q * p + r) (suc q * p + r)
      (omega (arith, h (offset + i * stride) iter))
    ∙ rounds-get f p h stride offset (i + 1) (iter + 1) n q r e (omega arith)
        (ap₂ (λ x t. get_elem? (f (offset + x * stride) t) r) next index ∙ g)

-- From any offset and index.
loop_nest-get :
    {n : ℕ} (ds : Vec LoopDim n) (offset iter k : ℕ)
    → k < product (extents ds)
    → get_elem? (loop_nest ds offset iter) k
      ≡ some (
        offset + offset_of ds (compute_coordinate (compute_strides 1 (extents ds)) k),
        iter * product (extents ds) + k,
      )
unfolding loop_nest compute_coordinate compute_strides
loop_nest-get nil offset iter zero h =
    ap₂ (λ x y. some (x, y)) {x = offset} (omega arith) (omega arith)
loop_nest-get nil offset iter (suc k) h = absurd (omega arith)
loop_nest-get (cons d ds) offset iter k h =
    let inside : q < d.extent = div-lt k p d.extent h in
    let whole : q * p + r ≡ k = omega arith in
    let below : r < p = omega (arith, h, positive) in
    ap (get_elem? (loop_nest (cons d ds) offset iter)) (sym whole)
    ∙ rounds-get (loop_nest ds) p (loop_nest-length ds) d.byte_stride offset d.start
        (iter * d.extent) d.extent q r _ inside
        (loop_nest-get ds (offset + (d.start + q) * d.byte_stride) (iter * d.extent + q) r below)
    ∙ ap₂ (λ x y. some (x, y)) offsets indices
  where
    p : ℕ
    p = product (extents ds)

    q : ℕ
    q = k / p

    r : ℕ
    r = k - k / p * p

    rest : ℕ
    rest = offset_of ds (compute_coordinate (compute_strides 1 (extents ds)) r)

    positive : 0 < p
    positive = elim (dec_lt 0 p) [
      | yes lt ↦ lt
      | no ge ↦
          let none_there : d.extent * p ≡ d.extent * 0 =
            ap (λ x. d.extent * x) {x = p} {y = 0} (omega (arith, ge)) in
          absurd (omega (arith, h, none_there))
    ]

    offsets :
        offset + (d.start + q) * d.byte_stride + rest
        ≡ offset
          + offset_of (cons d ds) (compute_coordinate (compute_strides 1 (extents (cons d ds))) k)
    offsets =
        omega arith
        ∙ ap (λ s. offset + offset_of (cons d ds) (compute_coordinate s k))
            (sym (strides-cons d.extent (extents ds)))

    indices : (iter * d.extent + q) * p + r ≡ iter * (d.extent * p) + k
    indices = grind (arith, mul_assoc iter d.extent p)

compute_strides-reverse_products : {n : ℕ} (v : Vec ℕ n) → compute_strides 1 v ≡ reverse_products v
unfolding compute_strides reverse_products
compute_strides-reverse_products nil = refl
compute_strides-reverse_products (cons e v) =
    strides-cons e v
    ∙ ap (cons (product v)) (compute_strides-reverse_products v)
    ∙ sym (reverse_products-cons e v)

compute_coordinate-upward : {n : ℕ} (s : Vec ℕ n) (i : ℕ) → compute_coordinate s i ≡ upward i s
unfolding compute_coordinate upward
compute_coordinate-upward nil i = refl
compute_coordinate-upward (cons s ss) i =
    ap (cons (i / s)) (compute_coordinate-upward ss (i - i / s * s))

compute_coordinate-Within :
    {n : ℕ} (v : Vec ℕ n) (k : ℕ)
    → k < product v
    → Within (compute_coordinate (compute_strides 1 v) k) v
      × (linear (compute_coordinate (compute_strides 1 v) k) (compute_strides 1 v) ≡ k)
compute_coordinate-Within v k h =
    subst (λ s. Within (compute_coordinate s k) v × (linear (compute_coordinate s k) s ≡ k))
      (sym (compute_strides-reverse_products v))
      (subst (λ x. Within x v × (linear x (reverse_products v) ≡ k))
        (sym (compute_coordinate-upward (reverse_products v) k)) (reverse-Within v k h))

-- The loop nest over a region calls the functor as often as the region has elements; its call number
-- `k` gets the index `k` in the region and the offset in memory of the coordinate that is computed
-- from `k` and the region's strides, which lies in the region and has the index `k` there.
pub loop_nest-compute_coordinate :
    {n : ℕ} (ds : Vec LoopDim n) (k : ℕ)
    → k < product (extents ds)
    → (length (loop_nest ds 0 0) ≡ product (extents ds))
      × (get_elem? (loop_nest ds 0 0) k
          ≡ some (offset_of ds (compute_coordinate (compute_strides 1 (extents ds)) k), k))
      × Within (compute_coordinate (compute_strides 1 (extents ds)) k) (extents ds)
      × (linear
            (compute_coordinate (compute_strides 1 (extents ds)) k)
            (compute_strides 1 (extents ds))
          ≡ k)
loop_nest-compute_coordinate ds k h =
    let (within, index) = compute_coordinate-Within (extents ds) k h in
    (
      loop_nest-length ds 0 0,
      loop_nest-get ds 0 0 k h ∙ ap₂ (λ x y. some (x, y)) (omega arith) (omega arith),
      within,
      index,
    )

-- Without padding, the strides in bytes are those from the size of a value on.
byte_strides-strides :
    {n : ℕ} (size_of : ℕ) (v : Vec ℕ n)
    → compute_byte_strides size_of 0 v ≡ compute_strides size_of v
unfolding compute_byte_strides compute_strides
byte_strides-strides s nil = refl
byte_strides-strides s (cons e nil) = refl
byte_strides-strides s (cons e (cons f nil)) = ap (λ x. cons x (cons s nil)) (omega arith)
byte_strides-strides s (cons e (cons f (cons g v))) =
    rw (byte_strides-strides s (cons f (cons g v))) refl
