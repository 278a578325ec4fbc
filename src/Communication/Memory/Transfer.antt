-- ===== src/Communication/Memory/Transfer.antt =====
-- Copies through a buffer and direct copies.
use mathlib.Core.Path.{fun_ext}
use ghex.Base.{
  ℕ, ◌+◌, ◌-◌, ◌*◌, ◌<◌, ◌≤◌, ◌≡◌, refl, ap, ◌∙◌, true, false, List, [], ◌∷◌, length, arith,
  Bool-cases, inl, inr,
}
use ghex.Communication.Memory.{Memory, in_range, memcpy, gather, scatter, transfer}

-- The buffers agree on the addresses from `at` on, below `at + n`.
abbrev pub Agree : ℕ → ℕ → Memory → Memory → Type 0
Agree at n b c = (a : ℕ) → at ≤ a → a < at + n → b a ≡ c a

pub memcpy-other :
    (dst : Memory) (d : ℕ) (src : Memory) (s n a : ℕ)
    → in_range d n a ≡ false
    → memcpy dst d src s n a ≡ dst a
unfolding memcpy
memcpy-other dst d src s n a h = rw h refl

pub memcpy-at :
    (dst : Memory) (d : ℕ) (src : Memory) (s n k : ℕ)
    → k < n
    → memcpy dst d src s n (d + k) ≡ src (s + k)
unfolding memcpy
memcpy-at dst d src s n k h = rw (inside, ap (λ x. src (s + x)) offset) refl
  where
    inside : in_range d n (d + k) ≡ true
    inside = ground arith

    offset : d + k - d ≡ k
    offset = omega arith

-- What a copy reads.
memcpy-Agree :
    (dst : Memory) (d : ℕ) (src from : Memory) (s t n : ℕ)
    → ((k : ℕ) → k < n → src (s + k) ≡ from (t + k))
    → memcpy dst d src s n ≡ memcpy dst d from t n
unfolding memcpy
memcpy-Agree dst d src from s t n h = fun_ext λ a. elim (Bool-cases (in_range d n a)) [
  | inl e ↦ rw e (h (a - d) (ground (arith, e)))
  | inr e ↦ rw e refl
]

-- A gather writes from its first address on only.
pub gather-below :
    (size : ℕ) (values : Memory) (is : List ℕ) (b : Memory) (at a : ℕ)
    → a < at
    → gather size values is b at a ≡ b a
unfolding gather
gather-below size values [] b at a h = refl
gather-below size values (i ∷ is) b at a h =
    gather-below size values is (memcpy b at values i size) (at + size) a (omega arith)
    ∙ memcpy-other b at values i size a (ground arith)

-- A scatter reads as many elements as it has indices.
pub scatter-Agree :
    (size : ℕ) (values : Memory) (is : List ℕ) (b c : Memory) (at : ℕ)
    → Agree at (length is * size) b c
    → scatter size values is b at ≡ scatter size values is c at
unfolding scatter
scatter-Agree size values [] b c at h = refl
scatter-Agree size values (i ∷ is) b c at h =
    ap (λ v. scatter size v is b (at + size))
      (memcpy-Agree values i b c at at size (λ k lt. h (at + k) (omega arith) (grind arith)))
    ∙ scatter-Agree size (memcpy values i c at size) is b c (at + size)
        (λ a lo hi. h a (omega arith) (grind arith))

-- Through the buffer as directly.
pub scatter-gather :
    (size : ℕ) (from : Memory) (is : List ℕ) (to : Memory) (js : List ℕ) (b : Memory) (at : ℕ)
    → length is ≡ length js
    → scatter size to js (gather size from is b at) at ≡ transfer size from is to js
unfolding scatter gather transfer
scatter-gather size from [] to [] b at e = refl
scatter-gather size from [] to (j ∷ js) b at e = absurd (omega arith)
scatter-gather size from (i ∷ is) to [] b at e = absurd (omega arith)
scatter-gather size from (i ∷ is) to (j ∷ js) b at e =
    ap (λ v. scatter size v js (gather size from is b' (at + size)) (at + size))
      (memcpy-Agree to j (gather size from is b' (at + size)) from at i size (λ k lt.
        gather-below size from is b' (at + size) (at + k) (omega arith)
        ∙ memcpy-at b at from i size k lt))
    ∙ scatter-gather size from is (memcpy to j from i size) js b' (at + size) (omega arith)
  where
    b' : Memory
    b' = memcpy b at from i size
