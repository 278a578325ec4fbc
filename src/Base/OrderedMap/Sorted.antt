-- ===== src/Base/OrderedMap/Sorted.antt =====
-- `std::map`: its keys are in order, each once.
use mathlib.Core.Path.{◌≡◌, refl, sym, ap₂}
use mathlib.Core.Logic.{inl, inr}
use mathlib.Core.Bool.{Bool, true, false}
use mathlib.Core.Option.{none, some}
use mathlib.Core.List.{List, [], ◌∷◌}
use ghex.Base.Tests.{Bool-cases}
use ghex.Base.Lists.{All}
use ghex.Base.Membership.{In}
use native.Mathlib.Omega.{}
use ghex.Base.OrderedMap.{WeakOrder, StrictOrder, lookup, lookup-cons, upsert}

module _ {Key V : Type 0} (less : Key → Key → Bool) where
  -- All keys come after `k`.
  abbrev pub After : Key → List (Key × V) → Type 0
  After k m = All (λ e. less k e.0 ≡ true) m

  abbrev pub IsSorted : List (Key × V) → Type 0
  IsSorted [] = Unit {0}
  IsSorted ((k, v) ∷ m) = After k m × IsSorted m

  pub upsert-All :
      (P : Key × V → Type 0) (k : Key) (new : V) (old : V → V) (m : List (Key × V))
      → P (k, new)
      → ((l : Key) (v : V) → less k l ≡ false → less l k ≡ false → P (l, v) → P (l, old v))
      → All P m
      → All P (upsert less k new old m)
  unfolding upsert
  upsert-All P k new old [] pn po h = (pn, tt)
  upsert-All P k new old ((l, v) ∷ m) pn po h = elim (Bool-cases (less k l)) [
    | inl e ↦ rw e (pn, h)
    | inr e ↦ elim (Bool-cases (less l k)) [
      | inl f ↦ rw (e, f) (h.0, upsert-All P k new old m pn po h.1)
      | inr f ↦ rw (e, f) (po l v e f h.0, h.1)
    ]
  ]

  upsert-After :
      (j k : Key) (new : V) (old : V → V) (m : List (Key × V))
      → less j k ≡ true
      → After j m
      → After j (upsert less k new old m)
  upsert-After j k new old m e h =
      upsert-All (λ x. less j x.0 ≡ true) k new old m e (λ l v a b f. f) h

module _ {Key V : Type 0} (less : Key → Key → Bool) (order : WeakOrder less) where
  pub After-trans :
      (j k : Key) (m : List (Key × V)) → less j k ≡ true → After less k m → After less j m
  After-trans j k [] e h = tt
  After-trans j k ((l, v) ∷ m) e h = (order.transitive j k l e h.0, After-trans j k m e h.1)

  pub upsert-IsSorted :
      (k : Key) (new : V) (old : V → V) (m : List (Key × V))
      → IsSorted less m
      → IsSorted less (upsert less k new old m)
  unfolding upsert
  upsert-IsSorted k new old [] h = (tt, tt)
  upsert-IsSorted k new old ((l, v) ∷ m) h = elim (Bool-cases (less k l)) [
    | inl a ↦ rw a ((a, After-trans k l m a h.0), h)
    | inr a ↦ elim (Bool-cases (less l k)) [
      | inl b ↦ rw (a, b) (upsert-After less l k new old m b h.0, upsert-IsSorted k new old m h.1)
      | inr b ↦ rw (a, b) h
    ]
  ]

  -- Nothing is found below the first key.
  pub lookup-After : (k : Key) (m : List (Key × V)) → After less k m → lookup less k m ≡ none
  unfolding lookup
  lookup-After k [] h = refl
  lookup-After k ((l, v) ∷ m) h = rw h.0 refl

-- What is found is an entry of the map.
pub lookup-In :
    {Key V : Type 0} (less : Key → Key → Bool) (order : StrictOrder less) (k : Key) (v : V)
    (m : List (Key × V))
    → lookup less k m ≡ some v
    → In (k, v) m
lookup-In less order k v [] h = unfold lookup in cc
lookup-In less order k v ((l, w) ∷ m) h =
    let (before, found) = lookup-cons less k l w v m h in
    elim found [
      | inl (_, later) ↦ inr (lookup-In less order k v m later)
      | inr (after, here) ↦ inl (ap₂ (λ a b. (a, b)) (order.total k l before after) (sym here))
    ]
