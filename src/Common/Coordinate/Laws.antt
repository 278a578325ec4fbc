-- ===== src/Common/Coordinate/Laws.antt =====
-- include/ghex/common/coordinate.hpp: the comparison operators, `min` and `max`.
use ghex.Base.{ℕ, ◌≡◌, refl, ◌↔◌, true, arith, ap, ap₂, sym, ◌∙◌}
use ghex.Base.Int.{ℤ, ◌≤ℤ◌, ◌<ℤ◌, min_ℤ_parts, max_ℤ_parts}
use ghex.Base.Vec.{nil, cons}
use ghex.Common.Coordinate.{Coordinate, eq, lt, gt, le, ge, min, max}

-- A relation at every component.
abbrev pub Pointwise : {n : ℕ} → (ℤ → ℤ → Type 0) → Coordinate n → Coordinate n → Type 0
Pointwise R nil nil = Unit {0}
Pointwise R (cons x v) (cons y w) = R x y × Pointwise R v w

abbrev pub Le : {n : ℕ} → Coordinate n → Coordinate n → Type 0
Le = Pointwise ◌≤ℤ◌

le-Le : {n : ℕ} (a b : Coordinate n) → (le a b ≡ true) ↔ Le a b
unfolding le
le-Le nil nil = (λ _. tt, λ _. refl)
le-Le (cons x v) (cons y w) = ground (arith, le-Le v w)

lt-Pointwise : {n : ℕ} (a b : Coordinate n) → (lt a b ≡ true) ↔ Pointwise ◌<ℤ◌ a b
unfolding lt
lt-Pointwise nil nil = (λ _. tt, λ _. refl)
lt-Pointwise (cons x v) (cons y w) = ground (arith, lt-Pointwise v w)

ge-le : {n : ℕ} (a b : Coordinate n) → ge a b ≡ le b a
unfolding ge le
ge-le nil nil = refl
ge-le (cons x v) (cons y w) = ground (arith, ge-le v w)

gt-lt : {n : ℕ} (a b : Coordinate n) → gt a b ≡ lt b a
unfolding gt lt
gt-lt nil nil = refl
gt-lt (cons x v) (cons y w) = ground (arith, gt-lt v w)

eq→≡ : {n : ℕ} (a b : Coordinate n) → eq a b ≡ true → a ≡ b
unfolding eq
eq→≡ nil nil h = refl
eq→≡ (cons x v) (cons y w) h = ap₂ cons (ground arith) (eq→≡ v w (ground arith))

eq_refl : {n : ℕ} (a : Coordinate n) → eq a a ≡ true
unfolding eq
eq_refl nil = refl
eq_refl (cons x v) = ground (arith, eq_refl v)

-- For coordinates of any dimension: `==` holds exactly if the coordinates are equal, `<`, `>`, `<=`
-- and `>=` exactly if the relation holds at every component.
pub comparisons_decide :
    {n : ℕ} (a b : Coordinate n)
    → ((eq a b ≡ true) ↔ (a ≡ b))
      × ((lt a b ≡ true) ↔ Pointwise ◌<ℤ◌ a b)
      × ((gt a b ≡ true) ↔ Pointwise ◌<ℤ◌ b a)
      × ((le a b ≡ true) ↔ Le a b)
      × ((ge a b ≡ true) ↔ Le b a)
comparisons_decide a b = (
  (eq→≡ a b, λ e. ap (λ c. eq a c) (sym e) ∙ eq_refl a),
  lt-Pointwise a b,
  (λ h. (lt-Pointwise b a).0 (sym (gt-lt a b) ∙ h), λ h. gt-lt a b ∙ (lt-Pointwise b a).1 h),
  le-Le a b,
  (λ h. (le-Le b a).0 (sym (ge-le a b) ∙ h), λ h. ge-le a b ∙ (le-Le b a).1 h),
)

Le-min : {n : ℕ} (p a b : Coordinate n) → Le p (min a b) ↔ (Le p a × Le p b)
unfolding min
Le-min nil nil nil = (λ _. (tt, tt), λ _. tt)
Le-min (cons p ps) (cons x v) (cons y w) =
    let m = min_ℤ_parts x y in ground (arith, m, Le-min ps v w)

max-Le : {n : ℕ} (p a b : Coordinate n) → Le (max a b) p ↔ (Le a p × Le b p)
unfolding max
max-Le nil nil nil = (λ _. (tt, tt), λ _. tt)
max-Le (cons p ps) (cons x v) (cons y w) =
    let m = max_ℤ_parts x y in ground (arith, m, max-Le ps v w)

-- `min` is the greatest lower bound of two coordinates and `max` the least upper bound, in the
-- pointwise order.
pub min-max_bounds :
    {n : ℕ} (p a b : Coordinate n)
    → (Le p (min a b) ↔ (Le p a × Le p b)) × (Le (max a b) p ↔ (Le a p × Le b p))
min-max_bounds p a b = (Le-min p a b, max-Le p a b)
