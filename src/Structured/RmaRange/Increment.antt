-- ===== src/Structured/RmaRange/Increment.antt =====
-- include/ghex/structured/rma_range.hpp: the two functions `inc`.
use ghex.Base.{
  ℕ, ◌+◌, ◌-◌, ◌*◌, ◌/◌, ◌%◌, ◌<◌, ◌≡◌, refl, sym, ap, ap₂, subst, ◌∙◌, Bool, true, false, arith,
  Bool-cases, inl, inr, ◌==◌, leb,
}
use ghex.Base.Int.{pos}
use native.Mathlib.Nat.{mul_comm}
use native.Mathlib.Decide.{dec_lt}
use ghex.Base.Digits.{div_unique, mod_unique, rest-eq-mod}
use ghex.Base.Vec.{Vec, nil, cons, fill}
use ghex.Util.DimsMap
use ghex.Util.DimsMap.Laws.{product, size_loop-product}
use ghex.Structured.RmaRange.{Place, strides, make, inc_coord, inc, inc_by, place_at}

strides-product : {k : ℕ} (es : Vec ℕ k) → (strides es).1 ≡ product es
unfolding strides
strides-product nil = refl
strides-product (cons e es) = ap (λ q. q * e) (strides-product es) ∙ mul_comm (product es) e

upward-cons :
    {k : ℕ} (q r p : ℕ) (ps : Vec ℕ k)
    → r < p
    → DimsMap.upward (q * p + r) (cons p ps) ≡ cons q (DimsMap.upward r ps)
unfolding DimsMap.upward
upward-cons q r p ps h =
    let d = div_unique q p r h in
    let m = mod_unique q p r h in
    ap₂ cons d (ap (λ x. DimsMap.upward x ps) (rest-eq-mod (q * p + r) p ∙ m))

-- The place of index 0.
upward-zero : {k : ℕ} (es : Vec ℕ k) → 0 < product es → DimsMap.upward 0 (strides es).0 ≡ fill k 0
unfolding DimsMap.upward strides
upward-zero nil h = refl
upward-zero (cons e es) h =
    let sp = strides-product es in
    let some_es : 0 < product es = grind arith in
    ap (λ x. DimsMap.upward x (strides (cons e es)).0) (omega arith)
    ∙ upward-cons 0 0 (strides es).1 (strides es).0 (omega (arith, sp))
    ∙ ap (cons 0) (upward-zero es some_es)

-- What the next place is.
abbrev Step : {k : ℕ} → Vec ℕ k → ℕ → Type 0
Step {k} es i =
    (i + 1 < product es
      → inc_coord (DimsMap.upward i (strides es).0) es
        ≡ (DimsMap.upward (i + 1) (strides es).0, false))
    × (i + 1 ≡ product es → inc_coord (DimsMap.upward i (strides es).0) es ≡ (fill k 0, true))

not_multiple : {A : Type 0} (q e p s : ℕ) → s < p → 0 < s → q * p + s ≡ e * p → A
not_multiple q e p s h some_s eq =
    let a = mod_unique q p s h in
    let b = mod_unique e p 0 (omega arith) in
    let c : (q * p + s) % p ≡ (e * p + 0) % p = ap (λ x. x % p) (omega (arith, eq)) in
    absurd (omega (arith, a, b, c))

quotient_unique : (q e p : ℕ) → 0 < p → q * p ≡ e * p → q ≡ e
quotient_unique q e p some_p eq =
    let a = div_unique q p 0 some_p in
    let b = div_unique e p 0 some_p in
    let c : (q * p + 0) / p ≡ (e * p + 0) / p = ap (λ x. x / p) (omega (arith, eq)) in
    omega (arith, a, b, c)

abbrev going : {k : ℕ} → Vec ℕ k → Vec ℕ k × Bool
going v = (v, false)

module _ {k : ℕ} (e : ℕ) (es : Vec ℕ k) (q r : ℕ) (ih : Step es r) where
  -- The faster components go on.
  Step-within :
      r + 1 < (strides es).1 → r < (strides es).1 → Step (cons e es) (q * (strides es).1 + r)
  unfolding inc_coord strides
  Step-within a h =
      let p = (strides es).1 in
      let ps = (strides es).0 in
      let sp = strides-product es in
      let inner = ih.0 (omega (arith, sp)) in
      (
        λ _.
            rw (upward-cons q r p ps h, inner)
              (ap going (
                sym (upward-cons q (r + 1) p ps a)
                ∙ ap (λ x. DimsMap.upward x (cons p ps)) (omega arith))),
        λ b. not_multiple q e p (r + 1) a (omega arith) (omega (arith, b, ap (λ x. e * x) sp)),
      )

  -- The faster components start again.
  Step-over :
      r + 1 ≡ (strides es).1
      → r < (strides es).1
      → 0 < e
      → Step (cons e es) (q * (strides es).1 + r)
  unfolding inc_coord strides
  Step-over a h some_e =
      let p = (strides es).1 in
      let ps = (strides es).0 in
      let sp = strides-product es in
      let inner = ih.1 (a ∙ sp) in
      let total : e * p ≡ e * product es = ap (λ x. e * x) sp in
      let here : q * p + r + 1 ≡ (q + 1) * p = grind (arith, a) in
      elim (Bool-cases (q == e - 1)) [
        | inl last ↦ (
          λ b.
              let full : (q + 1) * p ≡ e * p = ap (λ x. x * p) (ground arith) in
              absurd (omega (arith, b, here, total, full)),
          λ b. rw (upward-cons q r p ps h, inner, last) refl,
        )
        | inr more ↦ (
          λ b.
              rw (upward-cons q r p ps h, inner, more)
                (ap going (
                  sym (
                    ap (λ x. DimsMap.upward x (cons p ps)) (omega (arith, here))
                    ∙ upward-cons (q + 1) 0 p ps (omega (arith, a))
                    ∙ ap (cons (q + 1)) (upward-zero es (omega (arith, a, sp)))))),
          λ b.
              let full =
                quotient_unique (q + 1) e p (omega (arith, a)) (omega (arith, b, here, total)) in
              absurd (ground (arith, full, more)),
        )
      ]

inc_coord-Step : {k : ℕ} (es : Vec ℕ k) (i : ℕ) → i < product es → Step es i
unfolding inc_coord strides DimsMap.upward
inc_coord-Step nil i h = (λ a. absurd (omega (arith, a)), λ a. refl)
inc_coord-Step (cons e es) i h =
    let p = (strides es).1 in
    let sp = strides-product es in
    let some_es : 0 < product es = grind arith in
    let some_e : 0 < e = grind arith in
    let split : i / p * p + i % p ≡ i = omega (arith, sp) in
    let below : i % p < p = omega (arith, sp, some_es) in
    let ih = inc_coord-Step es (i % p) (omega (arith, sp, below)) in
    subst (Step (cons e es)) split (elim (dec_lt (i % p + 1) p) [
      | yes a ↦ Step-within e es (i / p) (i % p) ih a below
      | no a ↦ Step-over e es (i / p) (i % p) ih (omega (arith, a, below)) below some_e
    ])

size-product : {k : ℕ} (es : Vec ℕ k) (chunk : ℕ) → 0 < chunk → (make es chunk).size ≡ product es
unfolding make
size-product es chunk some_chunk =
    ap (λ q. q * chunk / chunk) (size_loop-product 1 es)
    ∙ ap (λ q. q / chunk) (omega arith)
    ∙ div_unique (product es) chunk 0 some_chunk

-- With chunks that are not empty, for every index below the number of chunks: one step from the place
-- of the index, by components with carry, ends at the index and the place that the jump by one
-- computes by division; after the last chunk both end at the size and the end place.
pub inc-inc_by :
    {k : ℕ} (es : Vec ℕ k) (chunk i : ℕ)
    → 0 < chunk
    → i < (make es chunk).size
    → inc (make es chunk) i (place_at (make es chunk) i).1 ≡ inc_by (make es chunk) i (pos 1)
unfolding inc inc_by place_at make
inc-inc_by {k} es chunk i some_chunk h =
    let n = (make es chunk).size in
    let sp = size-product es chunk some_chunk in
    let inside : leb n i ≡ false = ground (arith, h) in
    elim (Bool-cases (leb n (i + 1))) [
      | inl e ↦ rw (inc, place_at, e) refl
      | inr e ↦
          let more : i + 1 < product es = ground (arith, e, sp) in
          let step = (inc_coord-Step es i (omega (arith, more))).0 more in
          rw (inc, place_at, e, inside) (ap moved step)
    ]
  where
    moved : Vec ℕ k × Bool → ℕ × Place k
    moved v = (i + 1, record { outer = v.0; inner = 0 })
