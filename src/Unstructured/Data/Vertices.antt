-- ===== src/Unstructured/Data/Vertices.antt =====
-- include/ghex/unstructured/user_concepts.hpp: the values of a vertex in a buffer.
use native.Mathlib.Decide.{dec_lt}
use ghex.Base.{
  ℕ, zero, suc, ◌+◌, ◌-◌, ◌*◌, ◌<◌, ◌≤◌, ◌≡◌, ◌≢◌, ◌⊎◌, ◌∙◌, sym, ap, ap₂, List, [], ◌∷◌, ◌++◌, All,
  All-append, get_elem?, get_elem?-append_left, get_elem?-append_right, some, length, inl, inr,
  subst, arith,
}
use mathlib.Core.Option.{some-injective}
use ghex.Base.Digits.{digit_unique}
use ghex.Communication.Memory.{Memory, scatter}
use ghex.Communication.Memory.Transfer.{scatter-gather}
use ghex.Communication.Memory.Elements.{Clear, Separate, transfer-at}
use ghex.Communication.Packing.{}
use ghex.Unstructured.Data.{IterationSpace, DataDescriptor, address, pack, unpack}
use ghex.Unstructured.Data.Elements.{
  levels_from, addresses, length-addresses, length-levels_from, unstructured_packing,
}

spaced : (base p q size : ℕ) → p < q → base + p * size + size ≤ base + q * size
spaced base p q size h = omega (arith, product)
  where
    product : q * size ≡ (p + 1 + (q - (p + 1))) * size
    product = ap (λ x. x * size) {x = q} {y = p + 1 + (q - (p + 1))} (omega arith)

address-Clear :
    (e : DataDescriptor) (w l v m : ℕ)
    → l < e.levels
    → m < e.levels
    → (w ≢ v) ⊎ (l ≢ m)
    → Clear e.size_of (address e w l) (address e v m)
unfolding address
address-Clear e w l v m hl hm h = elim (dec_lt (w * e.levels + l) (v * e.levels + m)) [
  | yes lt ↦ inl (spaced e.values (w * e.levels + l) (v * e.levels + m) e.size_of lt)
  | no ge ↦ elim (dec_lt (v * e.levels + m) (w * e.levels + l)) [
    | yes lt ↦ inr (spaced e.values (v * e.levels + m) (w * e.levels + l) e.size_of lt)
    | no le ↦
        let (ls, vs) = digit_unique e.levels l m w v hl hm (omega (arith, ge, le)) in
        absurd (elim h [ inl n ↦ n vs | inr n ↦ n ls ])
  ]
]

levels_from-Clear :
    (e : DataDescriptor) (w l v m n : ℕ)
    → l < e.levels
    → m + n ≤ e.levels
    → (w ≢ v) ⊎ (l < m)
    → All (Clear e.size_of (address e w l)) (levels_from e v m n)
unfolding levels_from
levels_from-Clear e w l v m zero hl hm h = tt
levels_from-Clear e w l v m (suc n) hl hm h =
    let other : (w ≢ v) ⊎ (l ≢ m) = elim h [
      | inl ne ↦ inl ne
      | inr lt ↦ inr (λ s. omega (arith, s, lt))
    ] in
    let next : (w ≢ v) ⊎ (l < m + 1) = elim h [
      | inl ne ↦ inl ne
      | inr lt ↦ inr (omega (arith, lt))
    ] in
    (
      address-Clear e w l v m hl (omega arith) other,
      levels_from-Clear e w l v (m + 1) n hl (omega arith) next,
    )

levels_from-Separate :
    (e : DataDescriptor) (v m n : ℕ) → m + n ≤ e.levels → Separate e.size_of (levels_from e v m n)
unfolding levels_from
levels_from-Separate e v m zero h = tt
levels_from-Separate e v m (suc n) h = (
  levels_from-Clear e v m v (m + 1) n (omega arith) (omega arith) (inr (omega arith)),
  levels_from-Separate e v (m + 1) n (omega arith),
)

-- No vertex comes twice.
abbrev pub Distinct : List ℕ → Type 0
Distinct [] = Unit
Distinct (v ∷ vs) = All (λ w. v ≢ w) vs × Distinct vs

addresses-Clear :
    (e : DataDescriptor) (v l n : ℕ) (vs : List ℕ)
    → l < e.levels
    → n ≤ e.levels
    → All (λ w. v ≢ w) vs
    → All (Clear e.size_of (address e v l)) (addresses e vs n)
unfolding addresses
addresses-Clear e v l n [] hl hn h = tt
addresses-Clear e v l n (w ∷ vs) hl hn h =
    All-append (Clear e.size_of (address e v l)) (levels_from e w 0 n) (addresses e vs n)
      (levels_from-Clear e v l w 0 n hl (omega arith) (inl h.0))
      (addresses-Clear e v l n vs hl hn h.1)

Separate-append :
    (size : ℕ) (js ks : List ℕ)
    → Separate size js
    → Separate size ks
    → All (λ j. All (Clear size j) ks) js
    → Separate size (js ++ ks)
Separate-append size [] ks sj sk h = sk
Separate-append size (j ∷ js) ks sj sk h =
    (All-append (Clear size j) js ks sj.0 h.0, Separate-append size js ks sj.1 sk h.1)

levels_from-addresses :
    (e : DataDescriptor) (v m n levels : ℕ) (vs : List ℕ)
    → m + n ≤ e.levels
    → levels ≤ e.levels
    → All (λ w. v ≢ w) vs
    → All (λ j. All (Clear e.size_of j) (addresses e vs levels)) (levels_from e v m n)
unfolding levels_from
levels_from-addresses e v m zero levels vs hm hl h = tt
levels_from-addresses e v m (suc n) levels vs hm hl h = (
  addresses-Clear e v m levels vs (omega arith) hl h,
  levels_from-addresses e v (m + 1) n levels vs (omega arith) hl h,
)

addresses-Separate :
    (e : DataDescriptor) (n : ℕ) (vs : List ℕ)
    → n ≤ e.levels
    → Distinct vs
    → Separate e.size_of (addresses e vs n)
unfolding addresses
addresses-Separate e n [] hn h = tt
addresses-Separate e n (v ∷ vs) hn h =
    Separate-append e.size_of (levels_from e v 0 n) (addresses e vs n)
      (levels_from-Separate e v 0 n (omega arith)) (addresses-Separate e n vs hn h.1)
      (levels_from-addresses e v 0 n n vs (omega arith) hn h.0)

get_elem?-levels_from :
    (d : DataDescriptor) (v m n l : ℕ)
    → l < n
    → get_elem? (levels_from d v m n) l ≡ some (address d v (m + l))
unfolding levels_from
get_elem?-levels_from d v m zero l h = elim h [ ]
get_elem?-levels_from d v m (suc n) zero h =
    ap (λ x. some (address d v x)) {x = m} {y = m + 0} (omega arith)
get_elem?-levels_from d v m (suc n) (suc l) h =
    get_elem?-levels_from d v (m + 1) n l (omega arith)
    ∙ ap (λ x. some (address d v x)) {x = m + 1 + l} {y = m + suc l} (omega arith)

get_elem?-addresses :
    (d : DataDescriptor) (vs : List ℕ) (n k l v : ℕ)
    → get_elem? vs k ≡ some v
    → l < n
    → get_elem? (addresses d vs n) (k * n + l) ≡ some (address d v l)
unfolding addresses
get_elem?-addresses d [] n k l v e h = cc
get_elem?-addresses d (w ∷ vs) n zero l v e h =
    ap (get_elem? (levels_from d w 0 n ++ addresses d vs n)) {x = 0 * n + l} {y = l} (omega arith)
    ∙ get_elem?-append_left (levels_from d w 0 n) (addresses d vs n) l (address d w l) (
        get_elem?-levels_from d w 0 n l h
        ∙ ap (λ x. some (address d w x)) {x = 0 + l} {y = l} (omega arith))
    ∙ ap (λ x. some (address d x l)) (some-injective w v e)
get_elem?-addresses d (w ∷ vs) n (suc k) l v e h =
    get_elem?-append_right (levels_from d w 0 n) (addresses d vs n) (k * n + l) (suc k * n + l)
      (omega (arith, length-levels_from d w 0 n))
    ∙ get_elem?-addresses d vs n k l v e h

-- A vertex of one field that is packed into a buffer, and the vertex at the same place of the list
-- that another field unpacks from there: for each level, each byte of the value of the second is
-- afterwards that of the first. The lists of vertices are as long, the values have one size, both
-- iteration spaces have the same number of levels, not more than the second field has, and the
-- second list has no vertex twice.
pub unpack-pack_vertex :
    (d e : DataDescriptor) (from to b : Memory) (at : ℕ) (is js : IterationSpace) (k l o v w : ℕ)
    → d.size_of ≡ e.size_of
    → is.levels ≡ js.levels
    → length is.local_indices ≡ length js.local_indices
    → js.levels ≤ e.levels
    → Distinct js.local_indices
    → get_elem? is.local_indices k ≡ some v
    → get_elem? js.local_indices k ≡ some w
    → l < js.levels
    → o < e.size_of
    → unpack e (js ∷ []) to (pack d (is ∷ []) from b at) at (address e w l + o)
      ≡ from (address d v l + o)
unfolding unstructured_packing
unpack-pack_vertex d e from to b at is js k l o v w sizes levels lengths le distinct f g hl ho =
    ap (λ m. m (address e w l + o))
      (unstructured_packing.unpack-scatter e js to packed at
        ∙ ap (λ s. scatter s to targets packed at) (sym sizes)
        ∙ ap (λ m. scatter d.size_of to targets m at)
            (unstructured_packing.pack-gather d is from b at)
        ∙ scatter-gather d.size_of from sources to targets b at counts)
    ∙ transfer-at d.size_of from sources to targets (k * js.levels + l) (address d v l)
        (address e w l) o
        (subst (λ s. Separate s targets) (sym sizes)
          (addresses-Separate e js.levels js.local_indices le distinct))
        (subst
          (λ n.
            get_elem? (addresses d is.local_indices n) (k * js.levels + l) ≡ some (address d v l))
          (sym levels) (get_elem?-addresses d is.local_indices js.levels k l v f hl))
        (get_elem?-addresses e js.local_indices js.levels k l w g hl) (omega (arith, sizes))
  where
    sources : List ℕ
    sources = addresses d is.local_indices is.levels

    targets : List ℕ
    targets = addresses e js.local_indices js.levels

    packed : Memory
    packed = pack d (is ∷ []) from b at

    counts : length sources ≡ length targets
    counts =
        length-addresses d is.local_indices is.levels
        ∙ ap₂ (λ x y. x * y) lengths levels
        ∙ sym (length-addresses e js.local_indices js.levels)
