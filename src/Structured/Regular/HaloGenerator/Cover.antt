-- ===== src/Structured/Regular/HaloGenerator/Cover.antt =====
-- include/ghex/structured/regular/halo_generator.hpp: the halos that operator() returns cover what
-- lies around the domain.
use ghex.Base.{ℕ, ◌+◌, ◌≡◌, refl, ap, ap₂, subst, ◌∙◌, Bool, true, ◌&&◌, arith}
use ghex.Base.Int.{ℤ, pos, +ℤ_parts, -ℤ_parts, leb_ℤ, ◌+ℤ◌, ◌-ℤ◌}
use ghex.Base.Vec.{Vec, nil, cons}
use ghex.Structured.Space.{}
use ghex.Structured.Regular.HaloGenerator.{
  Halo, HaloGenerator, Domain, left, middle, right, spaces, generate,
}
use ghex.Structured.Regular.HaloGenerator.Count.{
  contains, bit, count, extended, IsProper, count-generate,
}

-- In the domain's own coordinates: whether the point is in the domain, and whether it is at most the
-- widths of the halos away from it.
abbrev pub in_domain : {n : ℕ} → Vec ℤ n → Vec ℤ n → Vec ℤ n → Bool
in_domain nil nil nil = true
in_domain (cons a first) (cons b last) (cons x p) =
    (leb_ℤ (pos 0) x && leb_ℤ (a +ℤ x) b) && in_domain first last p

abbrev pub in_reach : {n : ℕ} → Vec Halo n → Vec ℤ n → Vec ℤ n → Vec ℤ n → Bool
in_reach nil nil nil nil = true
in_reach (cons h hs) (cons a first) (cons b last) (cons x p) =
    (leb_ℤ (pos 0) (x +ℤ h.minus) && leb_ℤ (a +ℤ x) (b +ℤ h.plus)) && in_reach hs first last p

leb-lower : (m x : ℤ) → leb_ℤ (pos 0 -ℤ m) x ≡ leb_ℤ (pos 0) (x +ℤ m)
leb-lower m x = let u = -ℤ_parts (pos 0) m in let v = +ℤ_parts x m in ground (arith, u, v)

leb-upper : (a b x : ℤ) → leb_ℤ x (b -ℤ a) ≡ leb_ℤ (a +ℤ x) b
leb-upper a b x = let u = -ℤ_parts b a in let v = +ℤ_parts a x in ground (arith, u, v)

leb-upper_wide : (a b p x : ℤ) → leb_ℤ x (b -ℤ a +ℤ p) ≡ leb_ℤ (a +ℤ x) (b +ℤ p)
leb-upper_wide a b p x =
    let u = -ℤ_parts b a in
    let v = +ℤ_parts a x in
    let w = +ℤ_parts (b -ℤ a) p in let y = +ℤ_parts b p in ground (arith, u, v, w, y)

contains-middle :
    {n : ℕ} (hs : Vec Halo n) (first last p : Vec ℤ n)
    → contains (spaces middle hs first last) p ≡ in_domain first last p
unfolding middle
contains-middle nil nil nil nil = refl
contains-middle (cons h hs) (cons a first) (cons b last) (cons x p) =
    ap₂ (λ s t. (leb_ℤ (pos 0) x && s) && t) (leb-upper a b x) (contains-middle hs first last p)

contains-extended :
    {n : ℕ} (hs : Vec Halo n) (first last p : Vec ℤ n)
    → contains (spaces extended hs first last) p ≡ in_reach hs first last p
unfolding left middle right
contains-extended nil nil nil nil = refl
contains-extended (cons h hs) (cons a first) (cons b last) (cons x p) =
    ap₂ ◌&&◌ (ap₂ ◌&&◌ (leb-lower h.minus x) (leb-upper_wide a b h.plus x))
      (contains-extended hs first last p)

-- With halo widths that are not negative, and a domain that is not empty, a point being given in the
-- domain's own coordinates: no halo contains a point of the domain; a point outside it lies in exactly
-- one generated halo where, in every dimension, it is at most the lower width below the first and at
-- most the upper width above the last coordinate of the domain; any other point lies in none.
pub halos_cover :
    {DomainId : Type 0} {n : ℕ} (g : HaloGenerator n) (dom : Domain DomainId n) (p : Vec ℤ n)
    → IsProper g.halos dom.first dom.last
    → count p (generate g dom) + bit (in_domain dom.first dom.last p)
      ≡ bit (in_reach g.halos dom.first dom.last p)
halos_cover g dom p ok =
    subst (λ b. count p (generate g dom) + bit b ≡ bit (in_reach g.halos dom.first dom.last p))
      (contains-middle g.halos dom.first dom.last p)
      (count-generate g dom p ok ∙ ap bit (contains-extended g.halos dom.first dom.last p))
