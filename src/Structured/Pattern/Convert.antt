-- ===== src/Structured/Pattern/Convert.antt =====
-- include/ghex/structured/pattern.hpp: the conversion of the regular halo generator's regions.
use ghex.Base.{
  ℕ, ◌+◌, ◌≡◌, refl, ap₂, ◌∙◌, Bool, true, false, List, [], ◌∷◌, ◌++◌, some, arith, Bool-cases, inl,
  inr, All, All-append, ◌==◌,
}
use mathlib.Core.List
use ghex.Base.Int.{ℤ, ◌-ℤ◌, ◌≤ℤ◌, int_laws}
use ghex.Base.Vec.{Vec, nil, cons}
use ghex.Common.Coordinate
use ghex.Structured.Space.{Span, Box2, local_first, local_last, global_first, global_last}
use ghex.Structured.Regular.HaloGenerator.{
  Halo, HaloGenerator, Domain, left, middle, right, spaces, compute_spaces, filter_used, wrap,
  wrap_span, outer_halos, generate,
}
use ghex.Structured.Pattern.{to_pair, convert_halos}

-- The local and the global side are equally long in every dimension.
abbrev IsEven : {n : ℕ} → Box2 n → Type 0
IsEven nil = Unit {0}
IsEven (cons s b) = (s.local_last -ℤ s.local_first ≡ s.global_last -ℤ s.global_first) × IsEven b

-- In addition the local side is not empty.
abbrev IsHalo : {n : ℕ} → Box2 n → Type 0
IsHalo b = IsEven b × (Coordinate.ge (local_last b) (local_first b) ≡ true)

spaces-IsEven :
    {n : ℕ} (hs : Vec Halo n) (first last : Vec ℤ n)
    → IsEven (spaces left hs first last)
      × IsEven (spaces middle hs first last)
      × IsEven (spaces right hs first last)
unfolding left middle right
spaces-IsEven nil nil nil = (tt, tt, tt)
spaces-IsEven (cons h hs) (cons a first) (cons b last) =
    let ih = spaces-IsEven hs first last in
    ((omega int_laws, ih.0), (omega int_laws, ih.1), (omega int_laws, ih.2))

map-cons-IsEven :
    {n : ℕ} (s : Span) (bs : List (Box2 n))
    → s.local_last -ℤ s.local_first ≡ s.global_last -ℤ s.global_first
    → All IsEven bs
    → All IsEven (List.map (cons s) bs)
map-cons-IsEven s [] h k = tt
map-cons-IsEven s (b ∷ bs) h k = ((h, k.0), map-cons-IsEven s bs h k.1)

compute_spaces-IsEven :
    {n : ℕ} (ls ms rs : Box2 n)
    → IsEven ls
    → IsEven ms
    → IsEven rs
    → All IsEven (compute_spaces ls ms rs)
unfolding compute_spaces
compute_spaces-IsEven nil nil nil h k m = (tt, tt)
compute_spaces-IsEven (cons l ls) (cons m ms) (cons r rs) hl hm hr =
    let rest = compute_spaces ls ms rs in
    let ih = compute_spaces-IsEven ls ms rs hl.1 hm.1 hr.1 in
    All-append IsEven (List.map (cons l) rest) (List.map (cons m) rest ++ List.map (cons r) rest)
      (map-cons-IsEven l rest hl.0 ih)
      (All-append IsEven (List.map (cons m) rest) (List.map (cons r) rest)
        (map-cons-IsEven m rest hm.0 ih) (map-cons-IsEven r rest hr.0 ih))

filter_used-IsHalo :
    {n : ℕ} (c j : ℕ) (bs : List (Box2 n)) → All IsEven bs → All IsHalo (filter_used c j bs)
unfolding filter_used
filter_used-IsHalo c j [] k = tt
filter_used-IsHalo c j (b ∷ bs) k =
    let ih = filter_used-IsHalo c (j + 1) bs k.1 in
    elim (Bool-cases (j == c)) [
      | inl e ↦ rw (e, filter_used) ih
      | inr e ↦ elim (Bool-cases (Coordinate.ge (local_last b) (local_first b))) [
        | inl v ↦ rw (e, v, filter_used) ((k.0, v), ih)
        | inr v ↦ rw (e, v, filter_used) ih
      ]
    ]

wrap_span-IsEven :
    (f l : ℤ) (p : Bool) (s : Span)
    → s.local_last -ℤ s.local_first ≡ s.global_last -ℤ s.global_first
    → (wrap_span f l p s).local_last -ℤ (wrap_span f l p s).local_first
      ≡ (wrap_span f l p s).global_last -ℤ (wrap_span f l p s).global_first
unfolding wrap_span
wrap_span-IsEven f l true s h = omega int_laws
wrap_span-IsEven f l false s h = h

wrap_span-local :
    (f l : ℤ) (p : Bool) (s : Span)
    → ((wrap_span f l p s).local_last ≡ s.local_last)
      × ((wrap_span f l p s).local_first ≡ s.local_first)
unfolding wrap_span
wrap_span-local f l true s = (refl, refl)
wrap_span-local f l false s = (refl, refl)

wrap-local :
    {n : ℕ} (fs ls : Vec ℤ n) (ps : Vec Bool n) (b : Box2 n)
    → (local_last (wrap fs ls ps b) ≡ local_last b)
      × (local_first (wrap fs ls ps b) ≡ local_first b)
unfolding wrap
wrap-local nil nil nil nil = (refl, refl)
wrap-local (cons f fs) (cons l ls) (cons p ps) (cons s b) =
    let one = wrap_span-local f l p s in
    let ih = wrap-local fs ls ps b in (ap₂ cons one.0 ih.0, ap₂ cons one.1 ih.1)

wrap-IsEven :
    {n : ℕ} (fs ls : Vec ℤ n) (ps : Vec Bool n) (b : Box2 n) → IsEven b → IsEven (wrap fs ls ps b)
unfolding wrap
wrap-IsEven nil nil nil nil h = tt
wrap-IsEven (cons f fs) (cons l ls) (cons p ps) (cons s b) h =
    (wrap_span-IsEven f l p s h.0, wrap-IsEven fs ls ps b h.1)

wrap-IsHalo :
    {n : ℕ} (fs ls : Vec ℤ n) (ps : Vec Bool n) (b : Box2 n) → IsHalo b → IsHalo (wrap fs ls ps b)
wrap-IsHalo fs ls ps b h =
    let e = wrap-local fs ls ps b in (wrap-IsEven fs ls ps b h.0, ap₂ Coordinate.ge e.0 e.1 ∙ h.1)

map-wrap-IsHalo :
    {n : ℕ} (fs ls : Vec ℤ n) (ps : Vec Bool n) (bs : List (Box2 n))
    → All IsHalo bs
    → All IsHalo (List.map (wrap fs ls ps) bs)
map-wrap-IsHalo fs ls ps [] k = tt
map-wrap-IsHalo fs ls ps (b ∷ bs) k = (wrap-IsHalo fs ls ps b k.0, map-wrap-IsHalo fs ls ps bs k.1)

to_pair-IsHalo :
    {n : ℕ} (b : Box2 n)
    → IsHalo b
    → (Coordinate.le (local_first b) (local_last b) ≡ true)
      × (Coordinate.le (global_first b) (global_last b) ≡ true)
unfolding Coordinate.ge Coordinate.le
to_pair-IsHalo nil h = (refl, refl)
to_pair-IsHalo (cons s b) (e, v) =
    let local : (s.local_first ≤ℤ s.local_last) = ground arith in
    let global : (s.global_first ≤ℤ s.global_last) = omega (int_laws, e.0, local) in
    let ih = to_pair-IsHalo b (e.1, ground arith) in
    (ground (arith, ih), ground (arith, ih, global))

convert_halos-IsHalo : {n : ℕ} (bs : List (Box2 n)) → All IsHalo bs → convert_halos bs ≡ some bs
unfolding convert_halos to_pair
convert_halos-IsHalo [] k = refl
convert_halos-IsHalo (b ∷ bs) k =
    let h = to_pair-IsHalo b k.0 in
    rw (h.0, h.1, convert_halos-IsHalo bs k.1, convert_halos, to_pair) (rw h.0 refl)

-- For any generator and any domain: the conversion of the generated halos to iteration spaces does
-- not throw, and keeps all of them.
pub convert_halos-generate :
    {DomainId : Type 0} {n : ℕ} (g : HaloGenerator n) (dom : Domain DomainId n)
    → convert_halos (generate g dom) ≡ some (generate g dom)
unfolding generate outer_halos
convert_halos-generate {n = n} g dom =
    let e = spaces-IsEven g.halos dom.first dom.last in
    convert_halos-IsHalo (generate g dom) (
      map-wrap-IsHalo g.first g.last g.periodic _ (
        filter_used-IsHalo _ 0 (outer_halos g dom) (
          compute_spaces-IsEven (spaces left g.halos dom.first dom.last)
            (spaces middle g.halos dom.first dom.last) (spaces right g.halos dom.first dom.last) e.0
            e.1 e.2)))
