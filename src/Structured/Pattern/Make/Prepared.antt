-- ===== src/Structured/Pattern/Make/Prepared.antt =====
-- include/ghex/structured/pattern.hpp: a rank's patterns with their tagged receive halos, before the
-- translation.
use mathlib.Core.List
use mathlib.Core.Logic.{}
use ghex.Base.{ℕ, ◌≡◌, refl, sym, ap, ◌∙◌, subst, List, [], ◌∷◌, map, All}
use ghex.Base.OrderedMap.{}
use ghex.Base.OrderedMap.Sorted.{}
use ghex.Base.Membership.{Distinct, NoRepeat-map, Distinct-of_map}
use ghex.Structured.Space.{Box2}
use ghex.Structured.Pattern.{TagState}
use ghex.Structured.Pattern.Domains.{
  ExtendedId, Halos, Pattern, domains_of, receive_all, set_tags, set_all_tags,
}
use ghex.Structured.Pattern.Make.{no_tags}
use ghex.Structured.Pattern.Make.Keys.{
  Keys, receive_halos-Keys, set_tags-ids, set_tags-All, untagged, sorted-Distinct,
}
use ghex.Structured.Pattern.Make.Grow.{}

-- A pattern's id with its extents, as `all_gather` collects them.
abbrev pub as_domain : {n : ℕ} → Pattern n → ExtendedId × Box2 n
as_domain p = (p.id, p.extents)

receive_all-as_domain :
    {n : ℕ} (domains : List (List (ExtendedId × Box2 n))) (ps : List (Pattern n × List (Box2 n)))
    → map as_domain (receive_all domains ps) ≡ domains_of ps
unfolding receive_all domains_of
receive_all-as_domain domains [] = refl
receive_all-as_domain domains ((p, h) ∷ ps) =
    ap (λ l. as_domain p ∷ l) (receive_all-as_domain domains ps)

set_all_tags-as_domain :
    {n : ℕ} (ps : List (Pattern n)) (s : TagState)
    → map as_domain (set_all_tags ps s).0 ≡ map as_domain ps
unfolding set_all_tags
set_all_tags-as_domain [] s = refl
set_all_tags-as_domain (p ∷ ps) s =
    ap (λ l. as_domain p ∷ l) (set_all_tags-as_domain ps (set_tags p.recv_halos s).1)

-- A key before the tags are set.
abbrev pub Untagged : (ExtendedId → Type 0) → ExtendedId → Type 0
Untagged R k = (k.tag ≡ 0) × R (untagged k)

module _ {n : ℕ} (R : ExtendedId → Type 0) where
  abbrev Received : Pattern n → Type 0
  Received p = Keys (Untagged R) p.recv_halos × (p.send_halos ≡ [])

  -- A rank's pattern before the translation: its receive halos are from different domains that all
  -- have a property, and it has no send halos.
  abbrev pub IsPrepared : Pattern n → Type 0
  IsPrepared p =
      Distinct (λ x. x.0.id) p.recv_halos
      × All (λ x. R (untagged x.0)) p.recv_halos
      × (p.send_halos ≡ [])

  receive_all-Received :
      (domains : List (List (ExtendedId × Box2 n))) (ps : List (Pattern n × List (Box2 n)))
      → All (λ x. Untagged R x.0) (List.flat_map (λ x. x) domains)
      → All (λ x. (x.0.send_halos ≡ []) × (x.0.recv_halos ≡ [])) ps
      → All Received (receive_all domains ps)
  unfolding receive_all
  receive_all-Received domains [] a h = tt
  receive_all-Received domains ((p, halos) ∷ ps) a h = (
    (
      receive_halos-Keys (Untagged R) halos (List.flat_map (λ x. x) domains) p.recv_halos a
          (subst (Keys (Untagged R)) (sym h.0.1) (tt, tt)),
      h.0.0,
    ),
    receive_all-Received domains ps a h.1,
  )

  set_tags-Distinct :
      (h : Halos n) (s : TagState) → Keys (Untagged R) h → Distinct (λ x. x.0.id) (set_tags h s).0
  set_tags-Distinct h s k =
      Distinct-of_map (λ x. x.0.id) (set_tags h s).0
        (subst (Distinct (λ i. i)) (sym (set_tags-ids h s))
          (NoRepeat-map (λ x. x.0.id) h (sorted-Distinct h k.0 (tags h k.1))))
    where
      tags : (h : Halos n) → All (λ x. Untagged R x.0) h → All (λ x. x.0.tag ≡ 0) h
      tags [] a = tt
      tags (x ∷ h) a = (a.0.0, tags h a.1)

  set_all_tags-IsPrepared :
      (ps : List (Pattern n)) (s : TagState)
      → All Received ps
      → All IsPrepared (set_all_tags ps s).0
  unfolding set_all_tags
  set_all_tags-IsPrepared [] s h = tt
  set_all_tags-IsPrepared (p ∷ ps) s h = (
    (
      set_tags-Distinct p.recv_halos s h.0.0,
      set_tags-All R p.recv_halos s (rest p.recv_halos h.0.0.1),
      h.0.1,
    ),
    set_all_tags-IsPrepared ps (set_tags p.recv_halos s).1 h.1,
  )
    where
      rest : (h : Halos n) → All (λ x. Untagged R x.0) h → All (λ x. R (untagged x.0)) h
      rest [] a = tt
      rest (x ∷ h) a = (a.0.1, rest h a.1)

-- The patterns of a rank before the translation.
abbrev pub prepared :
    {n : ℕ}
    → List (List (ExtendedId × Box2 n))
    → List (Pattern n × List (Box2 n))
    → List (Pattern n)
prepared domains ps = (set_all_tags (receive_all domains ps) no_tags).0

pub prepared-as_domain :
    {n : ℕ} (domains : List (List (ExtendedId × Box2 n))) (ps : List (Pattern n × List (Box2 n)))
    → map as_domain (prepared domains ps) ≡ domains_of ps
prepared-as_domain domains ps =
    set_all_tags-as_domain (receive_all domains ps) no_tags ∙ receive_all-as_domain domains ps

pub prepared-IsPrepared :
    {n : ℕ} (R : ExtendedId → Type 0) (domains : List (List (ExtendedId × Box2 n)))
    (ps : List (Pattern n × List (Box2 n)))
    → All (λ x. Untagged R x.0) (List.flat_map (λ x. x) domains)
    → All (λ x. (x.0.send_halos ≡ []) × (x.0.recv_halos ≡ [])) ps
    → All (IsPrepared R) (prepared domains ps)
prepared-IsPrepared R domains ps a h =
    set_all_tags-IsPrepared R (receive_all domains ps) no_tags
      (receive_all-Received R domains ps a h)
