-- ===== src/Structured/Space.antt =====
-- Boxes with a local and a global side, as the halo generator (`box2`) and the pattern
-- (`iteration_space_pair`) use them. The source keeps four coordinate arrays; here the four values
-- of one dimension stand together in a span, and a box is an array of spans.
use ghex.Base.{ℕ}
use ghex.Base.Int.{ℤ}
use ghex.Base.Vec
use ghex.Base.Vec.{Vec}

pub record Span : Type 0 where
  pub local_first : ℤ
  pub local_last : ℤ
  pub global_first : ℤ
  pub global_last : ℤ

abbrev pub Box2 : ℕ → Type 0
Box2 n = Vec Span n

abbrev pub local_first : {n : ℕ} → Box2 n → Vec ℤ n
local_first = Vec.map (λ s. s.local_first)

abbrev pub local_last : {n : ℕ} → Box2 n → Vec ℤ n
local_last = Vec.map (λ s. s.local_last)

abbrev pub global_first : {n : ℕ} → Box2 n → Vec ℤ n
global_first = Vec.map (λ s. s.global_first)

abbrev pub global_last : {n : ℕ} → Box2 n → Vec ℤ n
global_last = Vec.map (λ s. s.global_last)
