-- ===== src/Structured/Pattern/Make/Tags.antt =====
-- include/ghex/structured/pattern.hpp: the tags of the patterns that are made.
use mathlib.Core.List
use ghex.Base.{
  ℕ, zero, suc, ◌≤◌, ◌≡◌, refl, ap, ap₂, ◌∙◌, subst, List, [], ◌∷◌, ◌++◌, some, arith, map,
  get_elem?, Bool-cases, inl, inr, leb, if◌then◌else◌,
}
use ghex.Base.Membership.{NoRepeat}
use ghex.Structured.Space.{Box2}
use ghex.Structured.Pattern.{TagState, next_tag, tag_halos, tag_patterns}
use ghex.Structured.Pattern.Tags.{tag_patterns-distinct, tag_patterns-le_max}
use ghex.Structured.Pattern.Domains.{Halos, Pattern, set_tags, set_all_tags, receive_all}
use ghex.Structured.Pattern.Make.{Local, max_tags, no_tags}
use ghex.Structured.Pattern.Make.Prepared.{prepared}
use ghex.Structured.Pattern.Make.World.{AllFresh, gathered, gathered-IsKnown, ids_by_rank}
use ghex.Structured.Pattern.Make.Locals.{AllLocal}
use ghex.Structured.Pattern.Make.Results.{grow_all-frame, results-get}
use ghex.Structured.Pattern.Make.Rounds.{grow_all}
use ghex.Structured.Pattern.Make.Owners.{maps, local}
use ghex.Structured.Pattern.Make.Matched.{final}

module _ {n : ℕ} where
  -- The ranks and tags of receive halos, and of those of all patterns in order.
  abbrev halo_tags : Halos n → List (ℕ × ℕ)
  halo_tags = map (λ x. (x.0.rank, x.0.tag))

  abbrev pub recv_tags : List (Pattern n) → List (ℕ × ℕ)
  recv_tags [] = []
  recv_tags (p ∷ ps) = halo_tags p.recv_halos ++ recv_tags ps

  abbrev recv_ranks : List (Pattern n) → List (List ℕ)
  recv_ranks = map (λ p. map (λ x. x.0.rank) p.recv_halos)

  -- The tags are the ones of `tag_halos`.
  set_tags-tag_halos :
      (h : Halos n) (s : TagState)
      → (halo_tags (set_tags h s).0 ≡ (tag_halos (map (λ x. x.0.rank) h) s).0)
        × ((set_tags h s).1 ≡ (tag_halos (map (λ x. x.0.rank) h) s).1)
  unfolding set_tags tag_halos
  set_tags-tag_halos [] s = (refl, refl)
  set_tags-tag_halos ((k, v) ∷ h) s =
      let ih = set_tags-tag_halos h (next_tag k.rank s).1 in
      (ap (λ l. (k.rank, (next_tag k.rank s).0) ∷ l) ih.0, ih.1)

  set_all_tags-tag_patterns :
      (ps : List (Pattern n)) (s : TagState)
      → (recv_tags (set_all_tags ps s).0 ≡ (tag_patterns (recv_ranks ps) s).0)
        × ((set_all_tags ps s).1 ≡ (tag_patterns (recv_ranks ps) s).1)
  unfolding set_all_tags tag_patterns
  set_all_tags-tag_patterns [] s = (refl, refl)
  set_all_tags-tag_patterns (p ∷ ps) s =
      let here = set_tags-tag_halos p.recv_halos s in
      let ih = set_all_tags-tag_patterns ps (set_tags p.recv_halos s).1 in
      (
        ap₂ ◌++◌ here.0 (ih.0 ∙ ap (λ u. (tag_patterns (recv_ranks ps) u).0) here.1),
        ih.1 ∙ ap (λ u. (tag_patterns (recv_ranks ps) u).1) here.1,
      )

  recv_tags-map :
      (g : Pattern n → Pattern n) (ps : List (Pattern n))
      → ((p : Pattern n) → (g p).recv_halos ≡ p.recv_halos)
      → recv_tags (map g ps) ≡ recv_tags ps
  recv_tags-map g [] h = refl
  recv_tags-map g (p ∷ ps) h = ap₂ (λ a b. halo_tags a ++ b) (h p) (recv_tags-map g ps h)

  max_tags-start : (t : ℕ) (ls : List (Local n)) → t ≤ max_tags t ls
  unfolding max_tags
  max_tags-start t [] = omega arith
  max_tags-start t (l ∷ ls) = elim (Bool-cases (leb l.max_tag t)) [
    | inl e ↦ rw e (max_tags-start t ls)
    | inr e ↦ rw e (ground (arith, max_tags-start l.max_tag ls))
  ]

  max_tags-le :
      (t : ℕ) (ls : List (Local n)) (j : ℕ) (l : Local n)
      → get_elem? ls j ≡ some l
      → l.max_tag ≤ max_tags t ls
  unfolding max_tags
  max_tags-le t [] j l g = cc
  max_tags-le t (x ∷ ls) zero l g =
      let same : x ≡ l = cc in
      subst (λ y. y.max_tag ≤ max_tags t (x ∷ ls)) same
        (elim (Bool-cases (leb x.max_tag t)) [
          | inl e ↦ rw (e, max_tags) (ground (arith, max_tags-start t ls))
          | inr e ↦ rw (e, max_tags) (max_tags-start x.max_tag ls)
        ])
  max_tags-le t (x ∷ ls) (suc j) l g =
      max_tags-le (if leb x.max_tag t then t else x.max_tag) ls j l g

module _ {n : ℕ} (pss : List (List (Pattern n × List (Box2 n)))) (fresh : AllFresh 0 pss)
    (once : NoRepeat (List.flat_map (λ x. x) (ids_by_rank (gathered pss)))) (ls : List (Local n))
    (all : AllLocal (gathered pss) once (gathered-IsKnown pss fresh) 0 pss ls) where
  -- In the patterns of a rank: halos from one rank have different tags, none above the maximum tag.
  pub final-tags :
      (q : ℕ) (qs : List (Pattern n)) (i j r t : ℕ)
      → get_elem? (final pss fresh once ls all) q ≡ some qs
      → get_elem? (recv_tags qs) i ≡ some (r, t)
      → get_elem? (recv_tags qs) j ≡ some (r, t)
      → (i ≡ j) × (t ≤ max_tags 0 ls)
  final-tags q qs i j r t g a b =
      let ms = maps pss fresh once ls all in
      let (l, gl, same) = results-get ms 0 q q ls qs g (omega arith) in
      let (ps, gp, loc) = local pss fresh once ls all q l gl in
      let before = receive_all (gathered pss) ps in
      let tags = set_all_tags-tag_patterns before no_tags in
      let kept =
        ap recv_tags same
        ∙ recv_tags-map (grow_all q 0 ms) l.patterns (λ p. ap (λ w. w.2) (grow_all-frame q 0 ms p))
        ∙ ap recv_tags loc.3
        ∙ recv_tags-map _ (prepared (gathered pss) ps) (λ p. refl)
        ∙ tags.0 in
      let at = λ (k : ℕ) (h : get_elem? (recv_tags qs) k ≡ some (r, t)).
        subst (λ y. get_elem? y k ≡ some (r, t)) kept h in
      let le = tag_patterns-le_max (recv_ranks before) no_tags i r t (at i a) in
      let top = loc.6 ∙ ap (λ (u : TagState). u.max_tag) tags.1 in
      (
        tag_patterns-distinct (recv_ranks before) no_tags i j r t (at i a) (at j b),
        omega (arith, le, top, max_tags-le 0 ls q l gl),
      )
