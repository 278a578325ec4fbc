-- ===== src/Structured/Regular/HaloGenerator/Count.antt =====
-- include/ghex/structured/regular/halo_generator.hpp: the local sides of the halos that operator()
-- returns.
use ghex.Base.{
  ℕ, zero, suc, ◌+◌, ◌*◌, ◌/◌, ◌%◌, ◌<◌, ◌≡◌, refl, ap, ap₂, ◌∙◌, Bool, true, false, ◌&&◌, List, [],
  ◌∷◌, ◌++◌, some, get_elem?, length, length-append, arith, get_elem?-append_left,
  get_elem?-append_right, get_elem?-map-some, length-map,
}
use mathlib.Core.List
use ghex.Base.Int.{ℤ, pos, negsuc, pos_part, neg_part, +ℤ_parts, ◌≤ℤ◌, leb_ℤ, int_laws, ◌+ℤ◌, ◌-ℤ◌}
use ghex.Base.Vec.{Vec, nil, cons}
use ghex.Common.Coordinate
use ghex.Structured.Space.{Span, Box2, local_first, local_last}
use ghex.Structured.Regular.HaloGenerator.{
  Halo, HaloGenerator, Domain, left, middle, right, spaces, compute_spaces, ct_pow, filter_used,
  wrap, outer_halos, generate,
}

abbrev pub within : Span → ℤ → Bool
within s x = leb_ℤ s.local_first x && leb_ℤ x s.local_last

-- Whether the local side of the box contains the point.
abbrev pub contains : {n : ℕ} → Box2 n → Vec ℤ n → Bool
contains nil nil = true
contains (cons s b) (cons x p) = within s x && contains b p

abbrev pub bit : Bool → ℕ
bit true = 1
bit false = 0

-- The number of boxes that contain the point.
abbrev pub count : {n : ℕ} → Vec ℤ n → List (Box2 n) → ℕ
count p [] = 0
count p (b ∷ bs) = bit (contains b p) + count p bs

-- The domain with its halos, from the far end of the one to that of the other.
abbrev pub extended : Halo → ℤ → ℤ → Span
extended h a b = record (middle h a b) {
  local_first = (left h a b).local_first;
  local_last = (right h a b).local_last;
}

-- Halo widths are not negative, and the domain is not empty.
abbrev pub IsProper : {n : ℕ} → Vec Halo n → Vec ℤ n → Vec ℤ n → Type 0
IsProper nil nil nil = Unit {0}
IsProper (cons h hs) (cons a first) (cons b last) =
    ((pos 0 ≤ℤ h.minus) × (pos 0 ≤ℤ h.plus) × (a ≤ℤ b)) × IsProper hs first last

-- Three adjoining intervals split their union.
adjoining :
    (x l0 l1 m0 m1 r0 r1 : ℤ)
    → l1 +ℤ pos 1 ≡ m0
    → m1 +ℤ pos 1 ≡ r0
    → l0 ≤ℤ m0
    → m0 ≤ℤ m1
    → m1 ≤ℤ r1
    → bit (leb_ℤ l0 x && leb_ℤ x l1)
        + (bit (leb_ℤ m0 x && leb_ℤ x m1) + bit (leb_ℤ r0 x && leb_ℤ x r1))
      ≡ bit (leb_ℤ l0 x && leb_ℤ x r1)
adjoining x l0 l1 m0 m1 r0 r1 e f h0 h1 h2 =
    let p = +ℤ_parts l1 (pos 1) in
    let q = +ℤ_parts m1 (pos 1) in
    let e' = ap pos_part e in
    let e'' = ap neg_part e in let f' = ap pos_part f in let f'' = ap neg_part f in ground arith

within_split :
    (h : Halo) (a b x : ℤ)
    → pos 0 ≤ℤ h.minus
    → pos 0 ≤ℤ h.plus
    → a ≤ℤ b
    → bit (within (left h a b) x) + (bit (within (middle h a b) x) + bit (within (right h a b) x))
      ≡ bit (within (extended h a b) x)
unfolding left middle right
within_split h a b x hm hp hab =
    adjoining x (pos 0 -ℤ h.minus) (negsuc 0) (pos 0) (b -ℤ a) (b -ℤ a +ℤ pos 1) (b -ℤ a +ℤ h.plus)
      (omega int_laws) refl (omega int_laws) (omega int_laws) (omega int_laws)

count-append :
    {n : ℕ} (p : Vec ℤ n) (xs ys : List (Box2 n)) → count p (xs ++ ys) ≡ count p xs + count p ys
count-append p [] ys = omega arith
count-append p (x ∷ xs) ys = omega (arith, count-append p xs ys)

count-map-cons :
    {n : ℕ} (s : Span) (x : ℤ) (p : Vec ℤ n) (bs : List (Box2 n))
    → count (cons x p) (List.map (cons s) bs) ≡ bit (within s x) * count p bs
count-map-cons s x p [] = omega arith
count-map-cons s x p (b ∷ bs) = ground (arith, count-map-cons s x p bs)

combine :
    (l m r c : ℕ) (e k : Bool)
    → l + (m + r) ≡ bit e
    → c ≡ bit k
    → l * c + (m * c + r * c) ≡ bit (e && k)
combine l m r c true k h i = omega (arith, ap (λ (t : ℕ). t * c) h)
combine l m r c false k h i = omega (arith, ap (λ (t : ℕ). t * c) h)

count-compute_spaces :
    {n : ℕ} (hs : Vec Halo n) (first last p : Vec ℤ n)
    → IsProper hs first last
    → count p (
        compute_spaces
          (spaces left hs first last)
          (spaces middle hs first last)
          (spaces right hs first last))
      ≡ bit (contains (spaces extended hs first last) p)
unfolding compute_spaces
count-compute_spaces nil nil nil nil h = refl
count-compute_spaces (cons h hs) (cons a first) (cons b last) (cons x p) ok =
    let rest =
      compute_spaces (spaces left hs first last) (spaces middle hs first last)
        (spaces right hs first last) in
    let ih = count-compute_spaces hs first last p ok.1 in
    let q = within_split h a b x ok.0.0 ok.0.1 ok.0.2 in
    let part = λ (t : Span). List.map (cons t) rest in
    omega (
      arith,
      count-append (cons x p) (part (left h a b)) (part (middle h a b) ++ part (right h a b)),
      count-append (cons x p) (part (middle h a b)) (part (right h a b)),
      count-map-cons (left h a b) x p rest,
      count-map-cons (middle h a b) x p rest,
      count-map-cons (right h a b) x p rest,
      combine _ _ _ (count p rest) _ _ q ih,
    )

nonempty_of_contains :
    {n : ℕ} (b : Box2 n) (p : Vec ℤ n)
    → contains b p ≡ true
    → Coordinate.ge (local_last b) (local_first b) ≡ true
unfolding Coordinate.ge
nonempty_of_contains nil nil h = refl
nonempty_of_contains (cons s b) (cons x p) h = ground (arith, nonempty_of_contains b p)

count-filter_past :
    {n : ℕ} (p : Vec ℤ n) (c j : ℕ) (bs : List (Box2 n))
    → c < j
    → count p (filter_used c j bs) ≡ count p bs
unfolding filter_used
count-filter_past p c j [] h = refl
count-filter_past p c j (b ∷ bs) h =
    ground (arith, count-filter_past p c (j + 1) bs, nonempty_of_contains b p)

count-filter_at :
    {n : ℕ} (p : Vec ℤ n) (c j k : ℕ) (bs : List (Box2 n)) (m : Box2 n)
    → j + k ≡ c
    → get_elem? bs k ≡ some m
    → count p (filter_used c j bs) + bit (contains m p) ≡ count p bs
unfolding filter_used
count-filter_at p c j k [] m e g = cc
count-filter_at p c j zero (b ∷ bs) m e g = ground (arith, count-filter_past p c (j + 1) bs)
count-filter_at p c j (suc k) (b ∷ bs) m e g =
    ground (arith, count-filter_at p c (j + 1) k bs m, nonempty_of_contains b p)

length-compute_spaces : {n : ℕ} (ls ms rs : Box2 n) → length (compute_spaces ls ms rs) ≡ ct_pow 3 n
unfolding compute_spaces ct_pow
length-compute_spaces nil nil nil = refl
length-compute_spaces (cons l ls) (cons m ms) (cons r rs) =
    let rest = compute_spaces ls ms rs in
    let part = λ (t : Span). List.map (cons t) rest in
    omega (
      arith,
      length-append (part l) (part m ++ part r),
      length-append (part m) (part r),
      length-map (cons l) rest,
      length-map (cons m) rest,
      length-map (cons r) rest,
      length-compute_spaces ls ms rs,
    )

ct_pow_odd : (n : ℕ) → ct_pow 3 n % 2 ≡ 1
unfolding ct_pow
ct_pow_odd zero = refl
ct_pow_odd (suc n) = omega (arith, ct_pow_odd n)

-- The region at the centre of the list is the domain.
centre_is_middle :
    {n : ℕ} (ls ms rs : Box2 n) → get_elem? (compute_spaces ls ms rs) (ct_pow 3 n / 2) ≡ some ms
unfolding compute_spaces ct_pow
centre_is_middle nil nil nil = refl
centre_is_middle {n = suc n} (cons l ls) (cons m ms) (cons r rs) =
    let rest = compute_spaces ls ms rs in
    let part = λ (t : Span). List.map (cons t) rest in
    get_elem?-append_right (part l) (part m ++ part r) (ct_pow 3 n / 2) _
      (omega (arith, length-map (cons l) rest, length-compute_spaces ls ms rs, ct_pow_odd n))
    ∙ get_elem?-append_left (part m) (part r) _ _
        (get_elem?-map-some (cons m) rest _ _ (centre_is_middle ls ms rs))

contains-wrap :
    {n : ℕ} (f l : Vec ℤ n) (ps : Vec Bool n) (b : Box2 n) (p : Vec ℤ n)
    → contains (wrap f l ps b) p ≡ contains b p
unfolding wrap
contains-wrap nil nil nil nil nil = refl
contains-wrap (cons f fs) (cons l ls) (cons q qs) (cons s b) (cons x p) =
    ground (arith, contains-wrap fs ls qs b p)

count-map-wrap :
    {n : ℕ} (f l : Vec ℤ n) (ps : Vec Bool n) (bs : List (Box2 n)) (p : Vec ℤ n)
    → count p (List.map (wrap f l ps) bs) ≡ count p bs
count-map-wrap f l ps [] p = refl
count-map-wrap f l ps (b ∷ bs) p =
    ap₂ (λ c k. bit c + k) (contains-wrap f l ps b p) (count-map-wrap f l ps bs p)

-- The boxes that `generate` makes, against those of the whole domain and of all regions together.
pub count-generate :
    {DomainId : Type 0} {n : ℕ} (g : HaloGenerator n) (dom : Domain DomainId n) (p : Vec ℤ n)
    → IsProper g.halos dom.first dom.last
    → count p (generate g dom) + bit (contains (spaces middle g.halos dom.first dom.last) p)
      ≡ bit (contains (spaces extended g.halos dom.first dom.last) p)
unfolding generate outer_halos
count-generate {n} g dom p ok =
    let bs = outer_halos g dom in
    let m = spaces middle g.halos dom.first dom.last in
    let c = ct_pow 3 n / 2 in
    omega (
      arith,
      count-map-wrap g.first g.last g.periodic (filter_used c 0 bs) p,
      count-filter_at p c 0 c bs m (omega arith) (
          centre_is_middle (spaces left g.halos dom.first dom.last) m
            (spaces right g.halos dom.first dom.last)),
      count-compute_spaces g.halos dom.first dom.last p ok,
    )
