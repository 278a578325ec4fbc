-- ===== src/Common/Coordinate.antt =====
-- include/ghex/common/coordinate.hpp: `coordinate<Array>` over an array of int. The operators loop
-- over the dimensions; an early `return false` is a branch of the recursion.
pub mod Laws
use ghex.Base.{ℕ, Bool, true, false, not, if◌then◌else◌}
use ghex.Base.Int.{ℤ, pos, ◌+ℤ◌, ◌-ℤ◌, ◌*ℤ◌, ◌%ℤ◌, leb_ℤ, ltb_ℤ, eqb_ℤ, min_ℤ, max_ℤ}
use ghex.Base.Vec
use ghex.Base.Vec.{Vec, nil, cons, zip_with}

abbrev pub Coordinate : ℕ → Type 0
Coordinate n = Vec ℤ n

-- The constructor from a scalar.
unfoldable pub of_scalar : (n : ℕ) → ℤ → Coordinate n
of_scalar n x = Vec.fill n x

unfoldable pub eq : {n : ℕ} → Coordinate n → Coordinate n → Bool
eq nil nil = true
eq (cons x v) (cons y w) = if not (eqb_ℤ x y) then false else eq v w

unfoldable pub ne : {n : ℕ} → Coordinate n → Coordinate n → Bool
unfolding eq
ne a b = not (eq a b)

unfoldable pub lt : {n : ℕ} → Coordinate n → Coordinate n → Bool
lt nil nil = true
lt (cons x v) (cons y w) = if leb_ℤ y x then false else lt v w

unfoldable pub gt : {n : ℕ} → Coordinate n → Coordinate n → Bool
gt nil nil = true
gt (cons x v) (cons y w) = if leb_ℤ x y then false else gt v w

unfoldable pub le : {n : ℕ} → Coordinate n → Coordinate n → Bool
le nil nil = true
le (cons x v) (cons y w) = if ltb_ℤ y x then false else le v w

unfoldable pub ge : {n : ℕ} → Coordinate n → Coordinate n → Bool
ge nil nil = true
ge (cons x v) (cons y w) = if ltb_ℤ x y then false else ge v w

-- `+=`, `-=` and the free operators, with a coordinate and with a scalar.
unfoldable pub add : {n : ℕ} → Coordinate n → Coordinate n → Coordinate n
add = zip_with ◌+ℤ◌

unfoldable pub add_scalar : {n : ℕ} → Coordinate n → ℤ → Coordinate n
add_scalar v k = Vec.map (λ x. x +ℤ k) v

unfoldable pub sub : {n : ℕ} → Coordinate n → Coordinate n → Coordinate n
sub = zip_with ◌-ℤ◌

unfoldable pub sub_scalar : {n : ℕ} → Coordinate n → ℤ → Coordinate n
sub_scalar v k = Vec.map (λ x. x -ℤ k) v

unfoldable pub rem : {n : ℕ} → Coordinate n → Coordinate n → Coordinate n
rem = zip_with ◌%ℤ◌

unfoldable pub rem_scalar : {n : ℕ} → Coordinate n → ℤ → Coordinate n
rem_scalar v k = Vec.map (λ x. x %ℤ k) v

unfoldable pub min : {n : ℕ} → Coordinate n → Coordinate n → Coordinate n
min = zip_with min_ℤ

unfoldable pub max : {n : ℕ} → Coordinate n → Coordinate n → Coordinate n
max = zip_with max_ℤ

-- `auto res = l[0]*r[0]; for (int i=1; ...) res += l[i]*r[i];`
unfoldable pub dot_loop : {n : ℕ} → ℤ → Coordinate n → Coordinate n → ℤ
dot_loop res nil nil = res
dot_loop res (cons x v) (cons y w) = dot_loop (res +ℤ x *ℤ y) v w

unfoldable pub dot : {n : ℕ} → Coordinate (ℕ.suc n) → Coordinate (ℕ.suc n) → ℤ
unfolding dot_loop
dot (cons x v) (cons y w) = dot_loop (x *ℤ y) v w
