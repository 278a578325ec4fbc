-- ===== src/Base/Vec.antt =====
-- Arrays of a static size (`std::array<T, N>`) as an indexed family, and their pointwise maps.
use Prim.Native.Nat.{ℕ}

pub data Vec {ℓ} (A : Type ℓ) : ℕ → Type ℓ where
  nil : Vec A 0
  cons : {n : ℕ} → A → Vec A n → Vec A (ℕ.suc n)

module _ {ℓ} {A : Type ℓ} where
  abbrev pub fill : (n : ℕ) → A → Vec A n
  fill ℕ.zero a = nil
  fill (ℕ.suc n) a = cons a (fill n a)

  abbrev pub head : {n : ℕ} → Vec A (ℕ.suc n) → A
  head (cons a v) = a

  -- Component `i`, or `d` out of range.
  abbrev pub get_or : {n : ℕ} → Vec A n → ℕ → A → A
  get_or nil i d = d
  get_or (cons a v) ℕ.zero d = a
  get_or (cons a v) (ℕ.suc i) d = get_or v i d

  abbrev pub tail : {n : ℕ} → Vec A (ℕ.suc n) → Vec A n
  tail (cons a v) = v

module _ {ℓ κ} {A : Type ℓ} {B : Type κ} where
  abbrev pub map : {n : ℕ} → (A → B) → Vec A n → Vec B n
  map f nil = nil
  map f (cons a v) = cons (f a) (map f v)

module _ {ℓ κ μ} {A : Type ℓ} {B : Type κ} {C : Type μ} where
  abbrev pub zip_with : {n : ℕ} → (A → B → C) → Vec A n → Vec B n → Vec C n
  zip_with f nil nil = nil
  zip_with f (cons a v) (cons b w) = cons (f a b) (zip_with f v w)
