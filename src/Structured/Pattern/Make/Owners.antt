-- ===== src/Structured/Pattern/Make/Owners.antt =====
-- include/ghex/structured/pattern.hpp: every domain has one rank, and no other rank receives for it.
use mathlib.Core.List
use mathlib.Core.Logic.{◌≢◌}
use mathlib.Core.Option.{some-injective}
use native.Mathlib.Decide.{}
use ghex.Base.{
  ℕ, zero, suc, ◌+◌, ◌≡◌, refl, sym, ap, ◌∙◌, subst, List, [], ◌∷◌, none, some, arith, ltb, map,
  All, get_elem?,
}
use ghex.Base.OrderedMap.{lookup}
use ghex.Base.Membership.{
  In, In-map, Distinct, NoRepeat, NoRepeat-map, Distinct-of_map, NoRepeat-owner, All-of_In,
}
use ghex.Structured.Space.{Box2}
use ghex.Structured.Pattern.{}
use ghex.Structured.Pattern.Domains.{ExtendedId, Pattern, RankMap, domains_of}
use ghex.Structured.Pattern.Make.{Local}
use ghex.Structured.Pattern.Make.Find.{find}
use ghex.Structured.Pattern.Make.Sends.{from, entries, sent}
use ghex.Structured.Pattern.Make.Translate.{translate_all-Misses}
use ghex.Structured.Pattern.Make.Keys.{}
use ghex.Structured.Pattern.Make.Grow.{domain_of, ids, ids-map, grow}
use ghex.Structured.Pattern.Make.Rounds.{AllFit}
use ghex.Structured.Pattern.Make.Gain.{}
use ghex.Structured.Pattern.Make.Prepared.{prepared}
use ghex.Structured.Pattern.Make.Valid.{IsValid, from-DomainsExist}
use ghex.Structured.Pattern.Make.World.{
  ids_by_rank, ids_by_rank-get, AllFresh, gathered, gathered-IsKnown,
}
use ghex.Structured.Pattern.Make.Locals.{
  ids_at, IsLocal, AllLocal, AllLocal-get, prepared-ids, prepared-Distinct,
}
use ghex.Structured.Pattern.Make.Results.{AllReady}

pub gathered_at :
    {n : ℕ} (pss : List (List (Pattern n × List (Box2 n)))) (j : ℕ)
    (ps : List (Pattern n × List (Box2 n)))
    → get_elem? pss j ≡ some ps
    → get_elem? (gathered pss) j ≡ some (domains_of ps)
gathered_at [] j ps g = cc
gathered_at (x ∷ pss) zero ps g = ap (λ y. some (domains_of y)) (some-injective x ps g)
gathered_at (x ∷ pss) (suc j) ps g = gathered_at pss j ps g

pub get_elem?-map_inv :
    {n : ℕ} (ls : List (Local n)) (j : ℕ) (m : RankMap n)
    → get_elem? (map (λ l. l.send_halos_map) ls) j ≡ some m
    → (l : Local n) × (get_elem? ls j ≡ some l) × (l.send_halos_map ≡ m)
get_elem?-map_inv [] j m g = cc
get_elem?-map_inv (x ∷ ls) zero m g = (x, refl, some-injective x.send_halos_map m g)
get_elem?-map_inv (x ∷ ls) (suc j) m g = get_elem?-map_inv ls j m g

module _ {n : ℕ} (pss : List (List (Pattern n × List (Box2 n)))) (fresh : AllFresh 0 pss)
    (once : NoRepeat (List.flat_map (λ x. x) (ids_by_rank (gathered pss)))) (ls : List (Local n))
    (all : AllLocal (gathered pss) once (gathered-IsKnown pss fresh) 0 pss ls) where
  abbrev pub dss : List (List (ExtendedId × Box2 n))
  dss = gathered pss

  abbrev pub maps : List (RankMap n)
  maps = map (λ l. l.send_halos_map) ls

  pub local :
      (j : ℕ) (l : Local n)
      → get_elem? ls j ≡ some l
      → (ps : List (Pattern n × List (Box2 n))) × (get_elem? pss j ≡ some ps) × IsLocal dss j ps l
  local j l g =
      AllLocal-get dss once (gathered-IsKnown pss fresh) 0 j j pss ls l all g (omega arith)

  pub local_ids :
      (j : ℕ) (ps : List (Pattern n × List (Box2 n)))
      → get_elem? pss j ≡ some ps
      → get_elem? (ids_by_rank dss) j ≡ some (ids (prepared dss ps))
  local_ids j ps g =
      let at = ids_by_rank-get dss j (domains_of ps) (gathered_at pss j ps g) in
      at ∙ ap some (sym (prepared-ids dss j ps (gathered_at pss j ps g) ∙ ap from at))

  -- A rank sends nothing for a domain that another rank owns.
  module _ (k : ExtendedId) (o : ℕ) (owned : List ℕ)
      (owner : get_elem? (ids_by_rank dss) o ≡ some owned) (mine : In k.id owned) where
    pub foreign :
        (j : ℕ) (ps : List (Pattern n × List (Box2 n)))
        → get_elem? pss j ≡ some ps
        → j ≢ o
        → All (λ p. k.id ≢ p.id.id) (prepared dss ps)
    foreign j ps g ne =
        All-of_In (λ p. k.id ≢ p.id.id) (prepared dss ps)
          (λ p i e. ne (
            NoRepeat-owner (ids_by_rank dss) j o (ids (prepared dss ps)) owned k.id once
              (local_ids j ps g) owner
              (subst (λ d. In d (ids (prepared dss ps))) (sym e)
                (In-map domain_of p (prepared dss ps) i))
              mine))

    pub sent-foreign :
        (j q e : ℕ) (ps : List (Pattern n × List (Box2 n))) (l : Local n)
        → get_elem? pss j ≡ some ps
        → j ≢ o
        → (loc : IsLocal dss j ps l) → find k (sent loc.0 q e) ≡ none
    sent-foreign j q e ps l g ne loc =
        translate_all-Misses dss k q e (prepared dss ps) [] loc.0 loc.1 (foreign j ps g ne)
        ∙ nothing
      where
        nothing : find k (sent {n = n} [] q e) ≡ none
        nothing = unfold lookup in refl

    pub map-foreign :
        (j q e : ℕ) (m : RankMap n)
        → get_elem? maps j ≡ some m
        → j ≢ o
        → j ≢ q
        → find k (sent m q e) ≡ none
    map-foreign j q e m g ne nq =
        let (l, at, same) = get_elem?-map_inv ls j m g in
        let (ps, h, loc) = local j l at in
        ap (λ x. find k (sent x q e)) (sym same)
        ∙ ap (λ d. find k (entries e (from d))) (loc.5 q (λ x. nq (sym x)))
        ∙ sent-foreign j q e ps l h ne loc

  pub maps-IsValid : (j : ℕ) (m : RankMap n) → get_elem? maps j ≡ some m → IsValid (ids_at dss) m
  maps-IsValid j m g =
      let (l, at, same) = get_elem?-map_inv ls j m g in
      let (ps, h, loc) = local j l at in subst (IsValid (ids_at dss)) same loc.4

  AllFit-of_valid :
      (me r : ℕ) (l : List ℕ) (ms : List (RankMap n))
      → l ≡ ids_at dss me
      → All (IsValid (ids_at dss)) ms
      → AllFit me r l ms
  AllFit-of_valid me r l [] e v = tt
  AllFit-of_valid me r l (m ∷ ms) e v = (
    λ ne. (
      v.0.0,
      subst (λ k. All (λ x. In x.0 k) (from (lookup ltb me m))) (sym e)
          (from-DomainsExist (ids_at dss) me m v.0),
    ),
    AllFit-of_valid me (r + 1) l ms e v.1,
  )

  All-of_places :
      (P : RankMap n → Type 0) (ms : List (RankMap n))
      → ((j : ℕ) (m : RankMap n) → get_elem? ms j ≡ some m → P m)
      → All P ms
  All-of_places P [] h = tt
  All-of_places P (m ∷ ms) h = (h 0 m refl, All-of_places P ms (λ j x g. h (suc j) x g))

  pub All-maps-IsValid : All (IsValid (ids_at dss)) maps
  All-maps-IsValid = All-of_places (IsValid (ids_at dss)) maps maps-IsValid

  -- The ids of a rank's patterns are not changed by its own send halos.
  pub local-ids :
      (r : ℕ) (ps : List (Pattern n × List (Box2 n))) (l : Local n)
      → get_elem? pss r ≡ some ps
      → IsLocal dss r ps l
      → (ids l.patterns ≡ ids_at dss r) × Distinct domain_of l.patterns
  local-ids r ps l g loc =
      let d = from (lookup ltb r loc.0) in
      let at = gathered_at pss r ps g in
      let kept = ap ids loc.3 ∙ ids-map (grow (λ v w. v) d) (prepared dss ps) (λ p. refl) in
      (
        kept ∙ prepared-ids dss r ps at,
        Distinct-of_map domain_of l.patterns (
            subst NoRepeat (sym kept) (
              NoRepeat-map domain_of (prepared dss ps)
                (prepared-Distinct dss once (gathered-IsKnown pss fresh) r ps at))),
      )

  ready :
      (r : ℕ) (ks : List (Local n))
      → ((j : ℕ) (l : Local n) → get_elem? ks j ≡ some l → get_elem? ls (r + j) ≡ some l)
      → AllReady maps r ks
  ready r [] h = tt
  ready r (l ∷ ks) h =
      let at = subst (λ i. get_elem? ls i ≡ some l) (omega arith) (h 0 l refl) in
      let (ps, g, loc) = local r l at in
      let (same, dist) = local-ids r ps l g loc in
      (
        (AllFit-of_valid r 0 (ids l.patterns) maps same All-maps-IsValid, dist),
        ready (r + 1) ks (λ j x e. subst (λ i. get_elem? ls i ≡ some x) (shift j) (h (suc j) x e)),
      )
    where
      shift : (j : ℕ) → r + suc j ≡ (r + 1) + j
      shift j = omega arith

  pub all_ready : AllReady maps 0 ls
  all_ready = ready 0 ls (λ j l g. subst (λ i. get_elem? ls i ≡ some l) (omega arith) g)
