-- ===== src/Base/Membership.antt =====
-- Elements of a list, each with its place, and lists whose elements differ.
use Prim.Native.Nat.{ℕ, zero, suc}
use mathlib.Core.List
use mathlib.Core.Option.{some}
use mathlib.Core.Path.{◌≡◌, refl, sym, ap, ◌∙◌, subst}
use mathlib.Core.Logic.{◌≢◌, ◌⊎◌, inl, inr}
use mathlib.Core.List.{List, [], ◌∷◌, ◌++◌, map}
use ghex.Base.Lists.{All, get_elem?}

module _ {A : Type 0} where
  abbrev pub In : A → List A → Type 0
  In x [] = ⊥
  In x (y ∷ ys) = (x ≡ y) ⊎ In x ys

  pub In-append_left : (x : A) (xs ys : List A) → In x xs → In x (xs ++ ys)
  In-append_left x [] ys h = absurd h
  In-append_left x (y ∷ xs) ys (inl e) = inl e
  In-append_left x (y ∷ xs) ys (inr h) = inr (In-append_left x xs ys h)

  pub In-append_right : (x : A) (xs ys : List A) → In x ys → In x (xs ++ ys)
  In-append_right x [] ys h = h
  In-append_right x (y ∷ xs) ys h = inr (In-append_right x xs ys h)

  pub In-append_inv : (x : A) (xs ys : List A) → In x (xs ++ ys) → In x xs ⊎ In x ys
  In-append_inv x [] ys h = inr h
  In-append_inv x (y ∷ xs) ys (inl e) = inl (inl e)
  In-append_inv x (y ∷ xs) ys (inr h) = elim (In-append_inv x xs ys h) [
    | inl i ↦ inl (inr i)
    | inr i ↦ inr i
  ]

  pub All-In : (P : A → Type 0) (x : A) (xs : List A) → All P xs → In x xs → P x
  All-In P x [] h i = absurd i
  All-In P x (y ∷ xs) h (inl e) = subst P (sym e) h.0
  All-In P x (y ∷ xs) h (inr i) = All-In P x xs h.1 i

  pub All-of_In : (P : A → Type 0) (xs : List A) → ((x : A) → In x xs → P x) → All P xs
  All-of_In P [] h = tt
  All-of_In P (x ∷ xs) h = (h x (inl refl), All-of_In P xs (λ y i. h y (inr i)))

module _ {A B : Type 0} (f : A → B) where
  pub In-map : (x : A) (xs : List A) → In x xs → In (f x) (map f xs)
  In-map x [] h = absurd h
  In-map x (y ∷ xs) (inl e) = inl (ap f e)
  In-map x (y ∷ xs) (inr h) = inr (In-map x xs h)

  pub In-map_inv : (b : B) (xs : List A) → In b (map f xs) → (a : A) × In a xs × (b ≡ f a)
  In-map_inv b [] h = absurd h
  In-map_inv b (y ∷ xs) (inl e) = (y, inl refl, e)
  In-map_inv b (y ∷ xs) (inr h) = let r = In-map_inv b xs h in (r.0, inr r.1, r.2)

  -- No two elements have the same `f`.
  abbrev pub Distinct : List A → Type 0
  Distinct [] = Unit {0}
  Distinct (x ∷ xs) = All (λ y. f x ≢ f y) xs × Distinct xs

  All-map_to : (P : B → Type 0) (xs : List A) → All (λ x. P (f x)) xs → All P (map f xs)
  All-map_to P [] h = tt
  All-map_to P (x ∷ xs) h = (h.0, All-map_to P xs h.1)

  pub All-map_of : (P : B → Type 0) (xs : List A) → All P (map f xs) → All (λ x. P (f x)) xs
  All-map_of P [] h = tt
  All-map_of P (x ∷ xs) h = (h.0, All-map_of P xs h.1)

pub Distinct-In :
    {A B : Type 0} (f : A → B) (x y : A) (xs : List A)
    → Distinct f xs
    → In x xs
    → In y xs
    → f x ≡ f y
    → x ≡ y
Distinct-In f x y [] d i j e = absurd i
Distinct-In f x y (z ∷ xs) d (inl a) (inl b) e = a ∙ sym b
Distinct-In f x y (z ∷ xs) d (inl a) (inr j) e =
    absurd (All-In (λ w. f z ≢ f w) y xs d.0 j (sym (ap f a) ∙ e))
Distinct-In f x y (z ∷ xs) d (inr i) (inl b) e =
    absurd (All-In (λ w. f z ≢ f w) x xs d.0 i (sym (ap f b) ∙ sym e))
Distinct-In f x y (z ∷ xs) d (inr i) (inr j) e = Distinct-In f x y xs d.1 i j e

-- No two are equal.
abbrev pub NoRepeat : {B : Type 0} → List B → Type 0
NoRepeat = Distinct (λ b. b)

module _ {A B : Type 0} (f : A → B) where
  pub NoRepeat-map : (xs : List A) → Distinct f xs → NoRepeat (map f xs)
  NoRepeat-map [] h = tt
  NoRepeat-map (x ∷ xs) h = (All-map_to f (λ y. f x ≢ y) xs h.0, NoRepeat-map xs h.1)

  pub Distinct-of_map : (xs : List A) → NoRepeat (map f xs) → Distinct f xs
  Distinct-of_map [] h = tt
  Distinct-of_map (x ∷ xs) h = (All-map_of f (λ y. f x ≢ y) xs h.0, Distinct-of_map xs h.1)

module _ {B : Type 0} where
  NoRepeat-append :
      (xs ys : List B)
      → NoRepeat (xs ++ ys)
      → NoRepeat xs × NoRepeat ys × ((b : B) → In b xs → In b ys → ⊥)
  NoRepeat-append [] ys h = (tt, h, λ b i j. i)
  NoRepeat-append (x ∷ xs) ys h =
      let (left, right, apart) = NoRepeat-append xs ys h.1 in
      (
        (
          All-of_In (λ y. x ≢ y) xs
              (λ y i. All-In (λ z. x ≢ z) y (xs ++ ys) h.0 (In-append_left y xs ys i)),
          left,
        ),
        right,
        λ b i j. elim i [
          | inl e ↦ All-In (λ z. x ≢ z) b (xs ++ ys) h.0 (In-append_right b xs ys j) (sym e)
          | inr k ↦ apart b k j
        ],
      )

  In-flat :
      (ls : List (List B)) (r : ℕ) (l : List B) (b : B)
      → get_elem? ls r ≡ some l
      → In b l
      → In b (List.flat_map (λ x. x) ls)
  unfolding List.flat_map
  In-flat [] r l b g i = cc
  In-flat (x ∷ ls) zero l b g i =
      let e : x ≡ l = cc in In-append_left b x (List.flat_map (λ y. y) ls) (subst (In b) (sym e) i)
  In-flat (x ∷ ls) (suc r) l b g i =
      In-append_right b x (List.flat_map (λ y. y) ls) (In-flat ls r l b g i)

  pub In-flat_inv :
      (ls : List (List B)) (b : B)
      → In b (List.flat_map (λ x. x) ls)
      → (r : ℕ) × (l : List B) × (get_elem? ls r ≡ some l) × In b l
  unfolding List.flat_map
  In-flat_inv [] b i = absurd i
  In-flat_inv (x ∷ ls) b i = elim (In-append_inv b x (List.flat_map (λ y. y) ls) i) [
    | inl j ↦ (zero, x, refl, j)
    | inr j ↦ let (r, l, g, k) = In-flat_inv ls b j in (suc r, l, g, k)
  ]

  pub NoRepeat-get :
      (ls : List (List B)) (r : ℕ) (l : List B)
      → NoRepeat (List.flat_map (λ x. x) ls)
      → get_elem? ls r ≡ some l
      → NoRepeat l
  unfolding List.flat_map
  NoRepeat-get [] r l h g = cc
  NoRepeat-get (x ∷ ls) zero l h g =
      let e : x ≡ l = cc in subst NoRepeat e (NoRepeat-append x (List.flat_map (λ y. y) ls) h).0
  NoRepeat-get (x ∷ ls) (suc r) l h g =
      NoRepeat-get ls r l (NoRepeat-append x (List.flat_map (λ y. y) ls) h).1 g

  -- An element stands in one of the lists only.
  pub NoRepeat-owner :
      (ls : List (List B)) (r q : ℕ) (k l : List B) (b : B)
      → NoRepeat (List.flat_map (λ x. x) ls)
      → get_elem? ls r ≡ some k
      → get_elem? ls q ≡ some l
      → In b k
      → In b l
      → r ≡ q
  unfolding List.flat_map
  NoRepeat-owner [] r q k l b h g f i j = cc
  NoRepeat-owner (x ∷ ls) zero zero k l b h g f i j = refl
  NoRepeat-owner (x ∷ ls) zero (suc q) k l b h g f i j =
      let e : x ≡ k = cc in
      absurd (
        (NoRepeat-append x (List.flat_map (λ y. y) ls) h).2 b (subst (In b) (sym e) i)
          (In-flat ls q l b f j))
  NoRepeat-owner (x ∷ ls) (suc r) zero k l b h g f i j =
      let e : x ≡ l = cc in
      absurd (
        (NoRepeat-append x (List.flat_map (λ y. y) ls) h).2 b (subst (In b) (sym e) j)
          (In-flat ls r k b g i))
  NoRepeat-owner (x ∷ ls) (suc r) (suc q) k l b h g f i j =
      ap suc
        (NoRepeat-owner ls r q k l b (NoRepeat-append x (List.flat_map (λ y. y) ls) h).1 g f i j)
