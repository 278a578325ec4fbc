-- ===== src/Structured/Pattern/Tags.antt =====
-- include/ghex/structured/pattern.hpp: the tags of receive halos.
use ghex.Base.{
  ℕ, zero, suc, ◌+◌, ◌≤◌, ◌≡◌, ◌≢◌, refl, sym, ap, ◌∙◌, List, [], ◌∷◌, ◌++◌, Option, none, some,
  get_elem?, subst, arith, Option-cases, inl, inr,
}
use native.Mathlib.Decide.{ℕ_discrete}
use ghex.Structured.Pattern.{TagState, find, assign, next_tag, tag_halos, tag_patterns}

-- The tag that comes next for a rank.
abbrev after : Option ℕ → ℕ
after none = 0
after (some t) = t + 1

abbrev next : ℕ → TagState → ℕ
next r s = after (find r s.tag_map)

find-assign_self : (r t : ℕ) (m : List (ℕ × ℕ)) → find r (assign r t m) ≡ some t
unfolding find assign
find-assign_self r t [] = ground arith
find-assign_self r t ((k, u) ∷ m) = ground (arith, find-assign_self r t m)

find-assign_ne : (r q t : ℕ) (m : List (ℕ × ℕ)) → r ≢ q → find q (assign r t m) ≡ find q m
unfolding find assign
find-assign_ne r q t [] h = ground arith
find-assign_ne r q t ((k, u) ∷ m) h = ground (arith, find-assign_ne r q t m h)

next_tag-next :
    (r : ℕ) (s : TagState)
    → ((next_tag r s).0 ≡ next r s) × (next r (next_tag r s).1 ≡ next r s + 1)
unfolding next_tag
next_tag-next r s = elim (Option-cases (find r s.tag_map)) [
  | inl e ↦ rw (e, next_tag) (refl, ap after (find-assign_self r 0 s.tag_map))
  | inr (t, e) ↦ rw (e, next_tag) (refl, ap after (find-assign_self r (t + 1) s.tag_map))
]

next_tag-other : (r q : ℕ) (s : TagState) → r ≢ q → next q (next_tag r s).1 ≡ next q s
unfolding next_tag
next_tag-other r q s h = elim (Option-cases (find r s.tag_map)) [
  | inl e ↦ rw (e, next_tag) (ap after (find-assign_ne r q 0 s.tag_map h))
  | inr (t, e) ↦ rw (e, next_tag) (ap after (find-assign_ne r q (t + 1) s.tag_map h))
]

next_tag-grows : (r q : ℕ) (s : TagState) → next q s ≤ next q (next_tag r s).1
next_tag-grows r q s = elim (ℕ_discrete r q) [
  | yes e ↦ subst (λ k. next k s ≤ next k (next_tag r s).1) e (omega (arith, next_tag-next r s))
  | no h ↦ omega (arith, next_tag-other r q s h)
]

-- A rank with its tag.
abbrev tagged : ℕ → ℕ → Option (ℕ × ℕ)
tagged r t = some (r, t)

tagged-injective : {a b c d : ℕ} → tagged a b ≡ tagged c d → (a ≡ c) × (b ≡ d)
tagged-injective h = (ap rank_of h, ap tag_of h)
  where
    rank_of : Option (ℕ × ℕ) → ℕ
    rank_of none = 0
    rank_of (some p) = p.0

    tag_of : Option (ℕ × ℕ) → ℕ
    tag_of none = 0
    tag_of (some p) = p.1

next_tag-max :
    (r : ℕ) (s : TagState)
    → ((next_tag r s).0 ≤ (next_tag r s).1.max_tag) × (s.max_tag ≤ (next_tag r s).1.max_tag)
unfolding next_tag
next_tag-max r s = elim (Option-cases (find r s.tag_map)) [
  | inl e ↦ rw (e, next_tag) (omega arith, omega arith)
  | inr (t, e) ↦ rw (e, next_tag) (ground arith)
]

-- Tags of a rank are never below the next one.
tag_halos-above :
    (rs : List ℕ) (s : TagState) (i r t : ℕ)
    → get_elem? (tag_halos rs s).0 i ≡ some (r, t)
    → next r s ≤ t
unfolding tag_halos
tag_halos-above [] s i r t e = cc
tag_halos-above (q ∷ rs) s zero r t e =
    let (p, u) = tagged-injective e in
    subst (λ k. next k s ≤ t) p (omega (arith, u, next_tag-next q s))
tag_halos-above (q ∷ rs) s (suc i) r t e =
    omega (arith, next_tag-grows q r s, tag_halos-above rs (next_tag q s).1 i r t e)

tag_halos-max : (rs : List ℕ) (s : TagState) → s.max_tag ≤ (tag_halos rs s).1.max_tag
unfolding tag_halos
tag_halos-max [] s = omega arith
tag_halos-max (r ∷ rs) s = omega (arith, next_tag-max r s, tag_halos-max rs (next_tag r s).1)

tag_halos-le_max :
    (rs : List ℕ) (s : TagState) (i r t : ℕ)
    → get_elem? (tag_halos rs s).0 i ≡ some (r, t)
    → t ≤ (tag_halos rs s).1.max_tag
unfolding tag_halos
tag_halos-le_max [] s i r t e = cc
tag_halos-le_max (q ∷ rs) s zero r t e =
    let (p, u) = tagged-injective e in
    omega (arith, u, next_tag-max q s, tag_halos-max rs (next_tag q s).1)
tag_halos-le_max (q ∷ rs) s (suc i) r t e = tag_halos-le_max rs (next_tag q s).1 i r t e

tag_halos-later :
    (q : ℕ) (rs : List ℕ) (s : TagState) (j r t : ℕ)
    → get_elem? (tag_halos (q ∷ rs) s).0 0 ≡ some (r, t)
    → get_elem? (tag_halos rs (next_tag q s).1).0 j ≡ some (r, t)
    → zero ≡ suc j
unfolding tag_halos
tag_halos-later q rs s j r t e f =
    let (p, u) = tagged-injective e in
    let above = tag_halos-above rs (next_tag q s).1 j r t f in
    let now = next_tag-next q s in
    let same : next q (next_tag q s).1 ≡ next r (next_tag q s).1 =
      ap (λ k. next k (next_tag q s).1) p in
    absurd (omega (arith, above, now, same, u))

tag_halos-distinct :
    (rs : List ℕ) (s : TagState) (i j r t : ℕ)
    → get_elem? (tag_halos rs s).0 i ≡ some (r, t)
    → get_elem? (tag_halos rs s).0 j ≡ some (r, t)
    → i ≡ j
unfolding tag_halos
tag_halos-distinct [] s i j r t e f = cc
tag_halos-distinct (q ∷ rs) s zero zero r t e f = refl
tag_halos-distinct (q ∷ rs) s zero (suc j) r t e f = tag_halos-later q rs s j r t e f
tag_halos-distinct (q ∷ rs) s (suc i) zero r t e f = sym (tag_halos-later q rs s i r t f e)
tag_halos-distinct (q ∷ rs) s (suc i) (suc j) r t e f =
    ap suc (tag_halos-distinct rs (next_tag q s).1 i j r t e f)

concat : List (List ℕ) → List ℕ
concat [] = []
concat (p ∷ ps) = p ++ concat ps

tag_halos-append :
    (p q : List ℕ) (s : TagState)
    → tag_halos (p ++ q) s
      ≡ ((tag_halos p s).0 ++ (tag_halos q (tag_halos p s).1).0, (tag_halos q (tag_halos p s).1).1)
unfolding tag_halos
tag_halos-append [] q s = refl
tag_halos-append (r ∷ p) q s = rw (tag_halos-append p q (next_tag r s).1) refl

tag_patterns-concat :
    (ps : List (List ℕ)) (s : TagState) → tag_patterns ps s ≡ tag_halos (concat ps) s
unfolding tag_patterns concat tag_halos
tag_patterns-concat [] s = refl
tag_patterns-concat (p ∷ ps) s =
    rw (tag_patterns-concat ps (tag_halos p s).1, tag_halos-append p (concat ps) s) refl

-- Over all patterns of a rank, whatever the state the tags start from: two receive halos that have
-- the same sending rank and the same tag are one.
pub tag_patterns-distinct :
    (ps : List (List ℕ)) (s : TagState) (i j r t : ℕ)
    → get_elem? (tag_patterns ps s).0 i ≡ some (r, t)
    → get_elem? (tag_patterns ps s).0 j ≡ some (r, t)
    → i ≡ j
tag_patterns-distinct ps s i j r t e f =
    let c = ap (λ x. get_elem? x.0 i) (sym (tag_patterns-concat ps s)) in
    let d = ap (λ x. get_elem? x.0 j) (sym (tag_patterns-concat ps s)) in
    tag_halos-distinct (concat ps) s i j r t (c ∙ e) (d ∙ f)

-- Over all patterns of a rank, whatever the state the tags start from: no tag exceeds the maximum
-- tag that is recorded in the end.
pub tag_patterns-le_max :
    (ps : List (List ℕ)) (s : TagState) (i r t : ℕ)
    → get_elem? (tag_patterns ps s).0 i ≡ some (r, t)
    → t ≤ (tag_patterns ps s).1.max_tag
tag_patterns-le_max ps s i r t e =
    let c = ap (λ x. get_elem? x.0 i) (sym (tag_patterns-concat ps s)) in
    subst (λ x. t ≤ x.1.max_tag) (sym (tag_patterns-concat ps s))
      (tag_halos-le_max (concat ps) s i r t (c ∙ e))
