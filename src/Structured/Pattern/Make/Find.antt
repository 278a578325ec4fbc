-- ===== src/Structured/Pattern/Make/Find.antt =====
-- include/ghex/structured/pattern.hpp: the maps from extended domain ids to halos, whose order does
-- not see the ranks, and what they hold for a key.
use mathlib.Core.Logic.{◌≢◌}
use mathlib.Core.Option.{none-ne-some}
use ghex.Base.{
  ℕ, ◌≡◌, ◌⊎◌, refl, sym, ap, ◌∙◌, true, false, List, [], ◌∷◌, Option, none, some, arith, ltb, map,
  Bool-cases, inl, inr, All,
}
use ghex.Base.OrderedMap.{
  WeakOrder, lookup, upsert, entry, lookup-cons, lookup-upsert_alike, lookup-upsert_apart,
}
use ghex.Base.OrderedMap.Sorted.{IsSorted, After}
use ghex.Structured.Space.{Box2}
use ghex.Structured.Pattern.Domains.{ExtendedId, less, Halos}
use ghex.Structured.Pattern.Exchange.{insert_all}
use ghex.Structured.Pattern.Exchange.RoundTrip.{merge}

pub less-WeakOrder : WeakOrder less
unfolding less
less-WeakOrder = record {
  irreflexive = λ a. ground arith;
  transitive = λ a b c h k. ground arith;
  alike = λ a b c h k. (ground arith, ground arith);
}

abbrev pub Alike : ExtendedId → ExtendedId → Type 0
Alike a b = (less a b ≡ false) × (less b a ≡ false)

abbrev pub Apart : ExtendedId → ExtendedId → Type 0
Apart a b = (less a b ≡ true) ⊎ (less b a ≡ true)

pub Apart-of_ids : (a b : ExtendedId) → a.id ≢ b.id → Apart a b
unfolding less
Apart-of_ids a b h = elim (Bool-cases (ltb a.id b.id)) [
  | inl e ↦ inl (ground arith)
  | inr e ↦ inr (ground arith)
]

pub Alike-of_eq : (a b : ExtendedId) → a.id ≡ b.id → a.tag ≡ b.tag → Alike a b
unfolding less
Alike-of_eq a b h k = (ground arith, ground arith)

module _ {n : ℕ} where
  -- The entries with their whole keys.
  abbrev view : Halos n → List (ExtendedId × (ExtendedId × List (Box2 n)))
  view = map (λ e. (e.0, e))

  -- The entry that a map has for a key, as it stands in the map.
  abbrev pub find : ExtendedId → Halos n → Option (ExtendedId × List (Box2 n))
  find k h = lookup less k (view h)

  view-upsert :
      (k : ExtendedId) (new : List (Box2 n)) (old : List (Box2 n) → List (Box2 n)) (h : Halos n)
      → view (upsert less k new old h) ≡ upsert less k (k, new) (λ e. (e.0, old e.1)) (view h)
  unfolding upsert
  view-upsert k new old [] = refl
  view-upsert k new old ((l, v) ∷ h) = elim (Bool-cases (less k l)) [
    | inl e ↦ rw e refl
    | inr e ↦ elim (Bool-cases (less l k)) [
      | inl f ↦ rw (e, f) (ap (λ t. (l, (l, v)) ∷ t) (view-upsert k new old h))
      | inr f ↦ rw (e, f) refl
    ]
  ]

  pub find-upsert-Alike :
      (k q : ExtendedId) (new : List (Box2 n)) (old : List (Box2 n) → List (Box2 n)) (h : Halos n)
      → Alike q k
      → find q (upsert less k new old h) ≡ entry less (k, new) (λ e. (e.0, old e.1)) (find q h)
  find-upsert-Alike k q new old h a =
      ap (lookup less q) (view-upsert k new old h)
      ∙ lookup-upsert_alike less less-WeakOrder k q (k, new) (λ e. (e.0, old e.1)) (view h) a.0 a.1

  pub find-upsert-Apart :
      (k q : ExtendedId) (new : List (Box2 n)) (old : List (Box2 n) → List (Box2 n)) (h : Halos n)
      → Apart q k
      → find q (upsert less k new old h) ≡ find q h
  find-upsert-Apart k q new old h a =
      ap (lookup less q) (view-upsert k new old h)
      ∙ lookup-upsert_apart less less-WeakOrder k q (k, new) (λ e. (e.0, old e.1)) (view h) a

  After-Apart :
      (k l : ExtendedId) (h : Halos n)
      → ((c : ExtendedId) → less l c ≡ true → less k c ≡ true)
      → After less l h
      → All (λ e. Apart k e.0) h
  After-Apart k l [] t a = tt
  After-Apart k l ((c, v) ∷ h) t a = (inl (t c a.0), After-Apart k l h t a.1)

  -- A key that is not found stands apart from all keys.
  pub find-none :
      (k : ExtendedId) (h : Halos n) → IsSorted less h → find k h ≡ none → All (λ e. Apart k e.0) h
  unfolding lookup
  find-none k [] s e = tt
  find-none k ((l, v) ∷ h) s e = elim (Bool-cases (less k l)) [
    | inl a ↦ (inl a, After-Apart k l h (λ c b. less-WeakOrder.transitive k l c a b) s.0)
    | inr a ↦ elim (Bool-cases (less l k)) [
      | inl b ↦ (inr b, find-none k h s.1 (rw (a, b) at e))
      | inr b ↦ absurd (none-ne-some (l, v) (sym (rw (a, b) at e)))
    ]
  ]

  pub find-merge-Apart :
      (f : List (Box2 n) → List (Box2 n) → List (Box2 n)) (k : ExtendedId) (es send : Halos n)
      → All (λ e. Apart k e.0) es
      → find k (merge f es send) ≡ find k send
  find-merge-Apart f k [] send a = refl
  find-merge-Apart f k ((l, v) ∷ es) send a =
      find-merge-Apart f k es (upsert less l v (λ w. f w v) send) a.1
      ∙ find-upsert-Apart l k v (λ w. f w v) send a.0

  -- What only the inserted map has is found as it stands there.
  pub find-merge_new :
      (f : List (Box2 n) → List (Box2 n) → List (Box2 n)) (k : ExtendedId) (es send : Halos n)
      (x : ExtendedId × List (Box2 n))
      → IsSorted less es
      → find k es ≡ some x
      → find k send ≡ none
      → find k (merge f es send) ≡ some x
  unfolding lookup
  find-merge_new f k [] send x s e n = absurd (none-ne-some x e)
  find-merge_new f k ((l, v) ∷ es) send x s e m =
      let found = lookup-cons less k l (l, v) x (view es) e in
      elim found.1 [
        | inl (later, e') ↦
            find-merge_new f k es (upsert less l v (λ w. f w v) send) x s.1 e'
              (find-upsert-Apart l k v (λ w. f w v) send (inr later) ∙ m)
        | inr (alike, same) ↦
            find-merge-Apart f k es (upsert less l v (λ w. f w v) send)
              (After-Apart k l es (λ c b. (less-WeakOrder.alike k l c found.0 alike).1 ∙ b) s.0)
            ∙ find-upsert-Alike l k v (λ w. f w v) send (found.0, alike)
            ∙ ap (entry less (l, v) (λ z. (z.0, f z.1 v))) m
            ∙ ap some same
      ]

pub insert_all-merge : {n : ℕ} (es send : Halos n) → insert_all es send ≡ merge (λ v w. v) es send
unfolding insert_all
insert_all-merge [] send = refl
insert_all-merge ((k, v) ∷ es) send = insert_all-merge es (upsert less k v (λ w. w) send)
