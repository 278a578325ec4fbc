-- ===== src/CubedSphere/Tables.antt =====
-- Properties of the tiles and of the neighbour slots, entry by entry.
use ghex.Base.{ℕ, zero, suc, ◌<◌, arith}

pub below_four {ℓ} : (P : ℕ → Type ℓ) → P 0 → P 1 → P 2 → P 3 → (n : ℕ) → n < 4 → P n
below_four P a b c d zero h = a
below_four P a b c d (suc zero) h = b
below_four P a b c d (suc (suc zero)) h = c
below_four P a b c d (suc (suc (suc zero))) h = d
below_four P a b c d (suc (suc (suc (suc n)))) h = absurd (omega arith)

pub below_six {ℓ} : (P : ℕ → Type ℓ) → P 0 → P 1 → P 2 → P 3 → P 4 → P 5 → (n : ℕ) → n < 6 → P n
below_six P a b c d e f zero h = a
below_six P a b c d e f (suc zero) h = b
below_six P a b c d e f (suc (suc n)) h = below_four (λ n. P (suc (suc n))) c d e f n (omega arith)
