-- ===== src/Communication/Memory/Elements.antt =====
-- Direct copies, element by element: what each byte is afterwards.
use ghex.Base.{
  ℕ, zero, suc, ◌+◌, ◌<◌, ◌≤◌, ◌≡◌, refl, ◌⊎◌, ◌∙◌, false, List, [], ◌∷◌, All, get_elem?, some,
  subst, arith,
}
use mathlib.Core.Option.{some-injective}
use ghex.Communication.Memory.{Memory, in_range, memcpy, transfer}
use ghex.Communication.Memory.Transfer.{memcpy-at, memcpy-other}

-- Elements of `size` bytes at two addresses have no byte in common.
abbrev pub Clear : ℕ → ℕ → ℕ → Type 0
Clear size j k = (j + size ≤ k) ⊎ (k + size ≤ j)

abbrev pub Separate : ℕ → List ℕ → Type 0
Separate size [] = Unit
Separate size (j ∷ js) = All (Clear size j) js × Separate size js

transfer-other :
    (size : ℕ) (from : Memory) (is : List ℕ) (to : Memory) (js : List ℕ) (j o : ℕ)
    → o < size
    → All (Clear size j) js
    → transfer size from is to js (j + o) ≡ to (j + o)
unfolding transfer
transfer-other size from [] to js j o lt h = refl
transfer-other size from (i ∷ is) to [] j o lt h = refl
transfer-other size from (i ∷ is) to (k ∷ js) j o lt h =
    let apart = h.0 in
    let outside : in_range k size (j + o) ≡ false = ground (arith, apart) in
    transfer-other size from is (memcpy to k from i size) js j o lt h.1
    ∙ memcpy-other to k from i size (j + o) outside

-- Every byte of every element that is copied arrives, where the elements that are written have no
-- bytes in common.
pub transfer-at :
    (size : ℕ) (from : Memory) (is : List ℕ) (to : Memory) (js : List ℕ) (m i j o : ℕ)
    → Separate size js
    → get_elem? is m ≡ some i
    → get_elem? js m ≡ some j
    → o < size
    → transfer size from is to js (j + o) ≡ from (i + o)
unfolding transfer
transfer-at size from [] to js m i j o sep e f lt = cc
transfer-at size from (x ∷ is) to [] m i j o sep e f lt = cc
transfer-at size from (x ∷ is) to (y ∷ js) zero i j o sep e f lt =
    subst (λ k. transfer size from is (memcpy to y from x size) js (k + o) ≡ from (i + o))
      (some-injective y j f)
      (subst (λ k. transfer size from is (memcpy to y from x size) js (y + o) ≡ from (k + o))
        (some-injective x i e)
        (transfer-other size from is (memcpy to y from x size) js y o lt sep.0
          ∙ memcpy-at to y from x size o lt))
transfer-at size from (x ∷ is) to (y ∷ js) (suc m) i j o sep e f lt =
    transfer-at size from is (memcpy to y from x size) js m i j o sep.1 e f lt
