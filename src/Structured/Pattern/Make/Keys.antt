-- ===== src/Structured/Pattern/Make/Keys.antt =====
-- include/ghex/structured/pattern.hpp: the keys of a pattern's receive halos.
use mathlib.Core.Logic.{◌≢◌}
use ghex.Base.{ℕ, ◌≡◌, refl, ap, true, List, [], ◌∷◌, ◌++◌, arith, map, Bool-cases, inl, inr, All}
use ghex.Base.OrderedMap.{upsert}
use ghex.Base.OrderedMap.Sorted.{IsSorted, After, upsert-IsSorted, upsert-All}
use ghex.Base.Membership.{Distinct}
use ghex.Common.Coordinate
use ghex.Structured.Space.{Box2, global_first, global_last}
use ghex.Structured.Regular.HaloGenerator
use ghex.Structured.Pattern.{TagState, push, receive_from, receive_halo, receive_halos, next_tag}
use ghex.Structured.Pattern.Domains.{ExtendedId, less, Halos, set_tags}
use ghex.Structured.Pattern.Make.{}
use ghex.Structured.Pattern.Make.Find.{less-WeakOrder}
use ghex.Structured.Pattern.Make.Grow.{}

push-upsert :
    {n : ℕ} (k : ExtendedId) (v : Box2 n) (m : Halos n)
    → push less k v m ≡ upsert less k (v ∷ []) (λ vs. vs ++ (v ∷ [])) m
unfolding push upsert
push-upsert k v [] = refl
push-upsert k v ((l, vs) ∷ m) = elim (Bool-cases (less k l)) [
  | inl e ↦ rw e refl
  | inr e ↦ elim (Bool-cases (less l k)) [
    | inl f ↦ rw (e, f) (ap (λ t. (l, vs) ∷ t) (push-upsert k v m))
    | inr f ↦ rw (e, f) refl
  ]
]

module _ {n : ℕ} (Q : ExtendedId → Type 0) where
  -- The keys of receive halos are in order and all have a property.
  abbrev pub Keys : Halos n → Type 0
  Keys m = IsSorted less m × All (λ x. Q x.0) m

  push-Keys : (k : ExtendedId) (v : Box2 n) (m : Halos n) → Q k → Keys m → Keys (push less k v m)
  push-Keys k v m q h = rw (push-upsert k v m) (
    upsert-IsSorted less less-WeakOrder k (v ∷ []) (λ vs. vs ++ (v ∷ [])) m h.0,
    upsert-All less (λ x. Q x.0) k (v ∷ []) (λ vs. vs ++ (v ∷ [])) m q (λ l w a b c. c) h.1,
  )

  receive_halo-Keys :
      (halo : Box2 n) (es : List (ExtendedId × Box2 n)) (m : Halos n)
      → All (λ x. Q x.0) es
      → Keys m
      → Keys (receive_halo less halo es m)
  unfolding receive_halo receive_from
  receive_halo-Keys halo [] m q h = h
  receive_halo-Keys halo ((k, e) ∷ es) m q h =
      let x = HaloGenerator.intersect halo (global_first e) (global_last e) in
      elim (Bool-cases (Coordinate.le (global_first x) (global_last x))) [
        | inl a ↦ rw a (receive_halo-Keys halo es (push less k x m) q.1 (push-Keys k x m q.0 h))
        | inr a ↦ rw a (receive_halo-Keys halo es m q.1 h)
      ]

  pub receive_halos-Keys :
      (halos : List (Box2 n)) (es : List (ExtendedId × Box2 n)) (m : Halos n)
      → All (λ x. Q x.0) es
      → Keys m
      → Keys (receive_halos less halos es m)
  unfolding receive_halos
  receive_halos-Keys [] es m q h = h
  receive_halos-Keys (halo ∷ halos) es m q h =
      receive_halos-Keys halos es (receive_halo less halo es m) q (receive_halo-Keys halo es m q h)

-- The tags are set, and the rest of the keys stays.
pub set_tags-ids :
    {n : ℕ} (h : Halos n) (s : TagState) → map (λ x. x.0.id) (set_tags h s).0 ≡ map (λ x. x.0.id) h
unfolding set_tags
set_tags-ids [] s = refl
set_tags-ids ((k, v) ∷ h) s = ap (λ l. k.id ∷ l) (set_tags-ids h (next_tag k.rank s).1)

abbrev pub untagged : ExtendedId → ExtendedId
untagged k = record k { tag = 0 }

pub set_tags-All :
    {n : ℕ} (P : ExtendedId → Type 0) (h : Halos n) (s : TagState)
    → All (λ x. P (untagged x.0)) h
    → All (λ x. P (untagged x.0)) (set_tags h s).0
unfolding set_tags
set_tags-All P [] s a = tt
set_tags-All P ((k, v) ∷ h) s a = (a.0, set_tags-All P h (next_tag k.rank s).1 a.1)

After-ids :
    {n : ℕ} (k : ExtendedId) (h : Halos n)
    → k.tag ≡ 0
    → After less k h
    → All (λ x. x.0.tag ≡ 0) h
    → All (λ x. k.id ≢ x.0.id) h
After-ids k [] t a b = tt
After-ids k ((l, v) ∷ h) t a b = (below k l t b.0 a.0, After-ids k h t a.1 b.1)
  where
    below : (k l : ExtendedId) → k.tag ≡ 0 → l.tag ≡ 0 → less k l ≡ true → k.id ≢ l.id
    below k l t u e same = unfold less in ground arith

-- Without tags, keys in order have different ids.
pub sorted-Distinct :
    {n : ℕ} (h : Halos n) → IsSorted less h → All (λ x. x.0.tag ≡ 0) h → Distinct (λ x. x.0.id) h
sorted-Distinct [] s a = tt
sorted-Distinct ((k, v) ∷ h) s a = (After-ids k h a.0 s.0 a.1, sorted-Distinct h s.1 a.1)
