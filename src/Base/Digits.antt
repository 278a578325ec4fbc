-- ===== src/Base/Digits.antt =====
-- Quotient and remainder as the digits of a number.
use Prim.Native.Nat.{ℕ, ◌+◌, ◌-◌, ◌*◌, ◌/◌, ◌%◌, ◌<◌}
use mathlib.Core.Path.{◌≡◌, sym, ap, ◌∙◌}
use native.Mathlib.Nat.{mul-one, div-one}
use native.Mathlib.Omega.{arith}

pub div-lt : (i p d : ℕ) → i < d * p → i / p < d
div-lt i p d h = grind arith

pub rest-eq-mod : (i p : ℕ) → i - i / p * p ≡ i % p
rest-eq-mod i p = omega arith

pub div_unique : (x p r : ℕ) → r < p → (x * p + r) / p ≡ x
div_unique x p r h = grind arith

pub mod_unique : (x p r : ℕ) → r < p → (x * p + r) % p ≡ r
mod_unique x p r h = grind arith

pub digit_unique : (d a b x y : ℕ) → a < d → b < d → x * d + a ≡ y * d + b → (a ≡ b) × (x ≡ y)
digit_unique d a b x y ha hb e = (
  sym (mod_unique x d a ha) ∙ ap (λ k. k % d) e ∙ mod_unique y d b hb,
  sym (div_unique x d a ha) ∙ ap (λ k. k / d) e ∙ div_unique y d b hb,
)

-- The second of three digits.
pub middle_digit : (n r p t : ℕ) → t < p → 0 < n → (r * p + t) % (n * p) / p ≡ r % n
middle_digit n r p t h pos =
    ap (λ k. k % (n * p) / p) regroup
    ∙ ap (λ k. k / p) (mod_unique (r / n) (n * p) (r % n * p + t) (grind (arith, below)))
    ∙ div_unique (r % n) p t h
  where
    split : r ≡ r / n * n + r % n
    split = omega arith

    below : r % n < n
    below = omega arith

    regroup : r * p + t ≡ r / n * (n * p) + (r % n * p + t)
    regroup = omega (arith, ap (λ (k : ℕ). k * p) split)

-- The same, with the factors as a running product from 1 leaves them.
pub last_digit_one : (r p t : ℕ) → t < p → (r * p + t) % (p * 1) / 1 ≡ t
last_digit_one r p t h = rw (mul-one, div-one) (mod_unique r p t h)

pub middle_digit_one : (n r p t : ℕ) → t < p → 0 < n → (r * p + t) % (n * (p * 1)) / (p * 1) ≡ r % n
middle_digit_one n r p t h pos = rw mul-one (middle_digit n r p t h pos)
