-- ===== src/Base/OrderedMap.antt =====
-- `std::map`: an association list in the order of its keys, and what its lookups return.
pub mod Sorted
use mathlib.Core.Path.{◌≡◌, refl, sym, ap, ◌∙◌, subst}
use mathlib.Core.Logic.{◌≢◌, ◌⊎◌, inl, inr}
use mathlib.Core.Bool.{Bool, true, false}
use mathlib.Core.Option
use mathlib.Core.Option.{Option, none, some, some-injective, none-ne-some}
use mathlib.Core.List.{List, [], ◌∷◌, map}
use native.Mathlib.Omega.{}
use ghex.Base.Tests.{if◌then◌else◌, Bool-cases}
use ghex.Base.Lists.{All}

-- A total order: the function object of the map.
pub record StrictOrder {Key : Type 0} (less : Key → Key → Bool) : Type 0 where
  pub irreflexive : (a : Key) → less a a ≡ false
  pub transitive : (a b c : Key) → less a b ≡ true → less b c ≡ true → less a c ≡ true
  pub total : (a b : Key) → less a b ≡ false → less b a ≡ false → a ≡ b

module _ {Key V : Type 0} (less : Key → Key → Bool) where
  unfoldable pub lookup : Key → List (Key × V) → Option V
  lookup k [] = none
  lookup k ((l, v) ∷ m) =
      let rest = lookup k m in if less k l then none else if less l k then rest else some v

  -- A missing key is inserted with the value `new`, an entry that is there is changed by `old`.
  unfoldable pub upsert : Key → V → (V → V) → List (Key × V) → List (Key × V)
  upsert k new old [] = (k, new) ∷ []
  upsert k new old ((l, v) ∷ m) =
      let rest = upsert k new old m in
      if less k l then (k, new) ∷ (l, v) ∷ m else if less l k then (l, v) ∷ rest else (l, old v) ∷ m

  -- What `upsert` makes of an entry.
  abbrev pub entry : V → (V → V) → Option V → Option V
  entry new old none = some new
  entry new old (some v) = some (old v)

  -- The values of a map all have a property.
  abbrev pub AllValues : (V → Type 0) → List (Key × V) → Type 0
  AllValues P = All (λ e. P e.1)

  pub upsert-AllValues :
      (P : V → Type 0) (k : Key) (new : V) (old : V → V) (m : List (Key × V))
      → P new
      → ((v : V) → P v → P (old v))
      → AllValues P m
      → AllValues P (upsert k new old m)
  unfolding upsert
  upsert-AllValues P k new old [] pn po h = (pn, tt)
  upsert-AllValues P k new old ((l, v) ∷ m) pn po h = elim (Bool-cases (less k l)) [
    | inl e ↦ rw e (pn, h)
    | inr e ↦ elim (Bool-cases (less l k)) [
      | inl f ↦ rw (e, f) (h.0, upsert-AllValues P k new old m pn po h.1)
      | inr f ↦ rw (e, f) (po v h.0, h.1)
    ]
  ]

  -- Where a lookup has found its value.
  pub lookup-cons :
      (k l : Key) (w v : V) (m : List (Key × V))
      → lookup k ((l, w) ∷ m) ≡ some v
      → (less k l ≡ false)
        × (((less l k ≡ true) × (lookup k m ≡ some v)) ⊎ ((less l k ≡ false) × (w ≡ v)))
  unfolding lookup
  lookup-cons k l w v m e = elim (Bool-cases (less k l)) [
    | inl a ↦ absurd (none-ne-some v (subst (λ b. chosen b ≡ some v) a e))
    | inr a ↦
        let inner : later (less l k) ≡ some v = subst (λ b. chosen b ≡ some v) a e in
        elim (Bool-cases (less l k)) [
          | inl b ↦ (a, inl (b, subst (λ c. later c ≡ some v) b inner))
          | inr b ↦ (a, inr (b, some-injective w v (subst (λ c. later c ≡ some v) b inner)))
        ]
  ]
    where
      later : Bool → Option V
      later c = if c then lookup k m else some w

      chosen : Bool → Option V
      chosen b = if b then none else later (less l k)

  pub lookup-AllValues :
      (P : V → Type 0) (k : Key) (m : List (Key × V)) (v : V)
      → AllValues P m
      → lookup k m ≡ some v
      → P v
  unfolding lookup
  lookup-AllValues P k [] v h e = cc
  lookup-AllValues P k ((l, w) ∷ m) v h e = elim (lookup-cons k l w v m e).1 [
    | inl f ↦ lookup-AllValues P k m v h.1 f.1
    | inr f ↦ subst P f.1 h.0
  ]

-- Keys of which neither is below the other need not be equal: they stand alike to all others.
pub record WeakOrder {Key : Type 0} (less : Key → Key → Bool) : Type 0 where
  pub irreflexive : (a : Key) → less a a ≡ false
  pub transitive : (a b c : Key) → less a b ≡ true → less b c ≡ true → less a c ≡ true
  pub alike :
      (a b c : Key)
      → less a b ≡ false
      → less b a ≡ false
      → (less c a ≡ less c b) × (less a c ≡ less b c)

pub StrictOrder-WeakOrder :
    {Key : Type 0} (less : Key → Key → Bool) → StrictOrder less → WeakOrder less
StrictOrder-WeakOrder less order = record {
  irreflexive = order.irreflexive;
  transitive = order.transitive;
  alike = λ a b c h k. let e = order.total a b h k in (ap (λ x. less c x) e, ap (λ x. less x c) e);
}

module _ {Key V : Type 0} (less : Key → Key → Bool) (order : WeakOrder less) where
  -- Of all keys that are alike, each finds the same.
  pub lookup-upsert_alike :
      (k q : Key) (new : V) (old : V → V) (m : List (Key × V))
      → less q k ≡ false
      → less k q ≡ false
      → lookup less q (upsert less k new old m) ≡ entry less new old (lookup less q m)
  unfolding lookup upsert
  lookup-upsert_alike k q new old [] a b = rw (a, b) refl
  lookup-upsert_alike k q new old ((l, v) ∷ m) a b =
      let both = order.alike q k l a b in
      elim (Bool-cases (less k l)) [
        | inl e ↦ rw (e, both.1 ∙ e, a, b) refl
        | inr e ↦ elim (Bool-cases (less l k)) [
          | inl f ↦ rw (e, f, both.1 ∙ e, both.0 ∙ f) (lookup-upsert_alike k q new old m a b)
          | inr f ↦ rw (e, f, both.1 ∙ e, both.0 ∙ f) refl
        ]
      ]

  lookup-upsert_before :
      (k q : Key) (new : V) (old : V → V) (m : List (Key × V))
      → less q k ≡ true
      → lookup less q (upsert less k new old m) ≡ lookup less q m
  unfolding lookup upsert
  lookup-upsert_before k q new old [] h = rw h refl
  lookup-upsert_before k q new old ((l, v) ∷ m) h = elim (Bool-cases (less k l)) [
    | inl e ↦ rw (e, h, order.transitive q k l h e) refl
    | inr e ↦ elim (Bool-cases (less l k)) [
      | inl f ↦ rw (e, f, lookup-upsert_before k q new old m h) refl
      | inr f ↦ rw (e, f, sym (order.alike k l q e f).0 ∙ h) refl
    ]
  ]

  lookup-upsert_after :
      (k q : Key) (new : V) (old : V → V) (m : List (Key × V))
      → less q k ≡ false
      → less k q ≡ true
      → lookup less q (upsert less k new old m) ≡ lookup less q m
  unfolding lookup upsert
  lookup-upsert_after k q new old [] n h = rw (n, h) refl
  lookup-upsert_after k q new old ((l, v) ∷ m) n h = elim (Bool-cases (less k l)) [
    | inl e ↦ rw (e, n, h) refl
    | inr e ↦ elim (Bool-cases (less l k)) [
      | inl f ↦ rw (e, f, lookup-upsert_after k q new old m n h) refl
      | inr f ↦ let same = order.alike k l q e f in rw (e, f, sym same.0 ∙ n, sym same.1 ∙ h) refl
    ]
  ]

  -- The entries of all other keys stay.
  pub lookup-upsert_apart :
      (k q : Key) (new : V) (old : V → V) (m : List (Key × V))
      → (less q k ≡ true) ⊎ (less k q ≡ true)
      → lookup less q (upsert less k new old m) ≡ lookup less q m
  lookup-upsert_apart k q new old m (inl h) = lookup-upsert_before k q new old m h
  lookup-upsert_apart k q new old m (inr h) = elim (Bool-cases (less q k)) [
    | inl e ↦ lookup-upsert_before k q new old m e
    | inr e ↦ lookup-upsert_after k q new old m e h
  ]

module _ {Key V : Type 0} (less : Key → Key → Bool) (order : StrictOrder less) where
  pub lookup-upsert_self :
      (k : Key) (new : V) (old : V → V) (m : List (Key × V))
      → lookup less k (upsert less k new old m) ≡ entry less new old (lookup less k m)
  lookup-upsert_self k new old m =
      let e = order.irreflexive k in
      lookup-upsert_alike less (StrictOrder-WeakOrder less order) k k new old m e e

  pub lookup-upsert_ne :
      (k q : Key) (new : V) (old : V → V) (m : List (Key × V))
      → q ≢ k
      → lookup less q (upsert less k new old m) ≡ lookup less q m
  lookup-upsert_ne k q new old m h =
      lookup-upsert_apart less (StrictOrder-WeakOrder less order) k q new old m
        (elim (Bool-cases (less q k)) [
          | inl e ↦ inl e
          | inr e ↦ elim (Bool-cases (less k q)) [
            | inl f ↦ inr f
            | inr f ↦ absurd (h (order.total q k e f))
          ]
        ])

-- A change of all values.
pub lookup-map :
    {Key V W : Type 0} (less : Key → Key → Bool) (g : V → W) (k : Key) (m : List (Key × V))
    → lookup less k (map (λ e. (e.0, g e.1)) m) ≡ Option.map g (lookup less k m)
unfolding lookup
lookup-map less g k [] = refl
lookup-map less g k ((l, v) ∷ m) = elim (Bool-cases (less k l)) [
  | inl a ↦ rw a refl
  | inr a ↦ elim (Bool-cases (less l k)) [
    | inl b ↦ rw (a, b) (lookup-map less g k m)
    | inr b ↦ rw (a, b) refl
  ]
]
