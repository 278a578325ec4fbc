-- ===== src/CubedSphere/DomainId.antt =====
-- include/ghex/structured/cubed_sphere/domain_descriptor.hpp: the ids of domains and their order, by
-- tile, then y, then x; and the order of include/ghex/structured/pattern.hpp on ids with tags.
use ghex.Base.{ℕ, ◌<◌, ◌≡◌, ◌↔◌, ◌⊎◌, Bool, true, false, ◌&&◌, arith, sym, ◌∙◌, if◌then◌else◌, ltb}
use ghex.Base.Int.{ℤ, ◌<ℤ◌, ltb_ℤ, eqb_ℤ}
use ghex.Base.Vec.{nil, cons}
use ghex.Common.Coordinate

-- `domain_id_type`: `id[0]` is x and `id[1]` is y.
pub record DomainId : Type 0 where
  pub tile : ℤ
  pub x : ℤ
  pub y : ℤ

unfoldable pub gt : DomainId → DomainId → Bool
gt a b =
    if ltb_ℤ b.tile a.tile
    then true
    else if ltb_ℤ a.tile b.tile
    then false
    else if ltb_ℤ b.y a.y
    then true
    else if ltb_ℤ a.y b.y
    then false
    else if ltb_ℤ b.x a.x
    then true
    else false

unfoldable pub lt : DomainId → DomainId → Bool
lt a b =
    if ltb_ℤ a.tile b.tile
    then true
    else if ltb_ℤ b.tile a.tile
    then false
    else if ltb_ℤ a.y b.y
    then true
    else if ltb_ℤ b.y a.y
    then false
    else if ltb_ℤ a.x b.x
    then true
    else false

unfoldable pub eq : DomainId → DomainId → Bool
unfolding Coordinate.eq
eq a b = eqb_ℤ a.tile b.tile && Coordinate.eq (cons a.x (cons a.y nil)) (cons b.x (cons b.y nil))

-- `extended_domain_id_type`; the rank and the address do not take part in the order.
pub record ExtendedId : Type 0 where
  pub id : DomainId
  pub tag : ℕ

unfoldable pub extended_lt : ExtendedId → ExtendedId → Bool
unfolding lt eq
extended_lt a b = if lt a.id b.id then true else if eq a.id b.id then ltb a.tag b.tag else false

-- By tile, then y, then x.
abbrev pub Less : DomainId → DomainId → Type 0
Less a b = (a.tile <ℤ b.tile) ⊎ ((a.tile ≡ b.tile) × ((a.y <ℤ b.y) ⊎ ((a.y ≡ b.y) × (a.x <ℤ b.x))))

gt-lt : (a b : DomainId) → gt a b ≡ lt b a
unfolding gt lt
gt-lt a b = ground arith

lt-Less : (a b : DomainId) → (lt a b ≡ true) ↔ Less a b
unfolding lt
lt-Less a b = ground arith

abbrev ExtendedLess : ExtendedId → ExtendedId → Type 0
ExtendedLess a b =
    Less a.id b.id
    ⊎ ((a.id.tile ≡ b.id.tile) × (a.id.y ≡ b.id.y) × (a.id.x ≡ b.id.x) × (a.tag < b.tag))

extended_lt-ExtendedLess : (a b : ExtendedId) → (extended_lt a b ≡ true) ↔ ExtendedLess a b
unfolding extended_lt lt eq Coordinate.eq
extended_lt-ExtendedLess a b = ground arith

ExtendedLess-trans : (a b c : ExtendedId) → ExtendedLess a b → ExtendedLess b c → ExtendedLess a c
ExtendedLess-trans a b c h k = ground arith

-- The order of extended domain ids is transitive.
pub extended_lt_trans :
    (a b c : ExtendedId) → extended_lt a b ≡ true → extended_lt b c ≡ true → extended_lt a c ≡ true
extended_lt_trans a b c h k = (extended_lt-ExtendedLess a c).1 (
    ExtendedLess-trans a b c ((extended_lt-ExtendedLess a b).0 h)
      ((extended_lt-ExtendedLess b c).0 k))

-- Two extended domain ids of which neither is below the other have equal ids and equal tags.
pub extended_lt-connex :
    (a b : ExtendedId)
    → extended_lt a b ≡ false
    → extended_lt b a ≡ false
    → (eq a.id b.id ≡ true) × (a.tag ≡ b.tag)
unfolding extended_lt lt eq Coordinate.eq
extended_lt-connex a b h k = ground arith

-- `<` holds exactly if the first id comes before the second by tile, then y, then x; and `>` exactly
-- if the second comes before the first.
pub lt-gt-Less : (a b : DomainId) → ((lt a b ≡ true) ↔ Less a b) × ((gt a b ≡ true) ↔ Less b a)
lt-gt-Less a b =
    (lt-Less a b, (λ h. (lt-Less b a).0 (sym (gt-lt a b) ∙ h), λ h. gt-lt a b ∙ (lt-Less b a).1 h))
