-- ===== src/Structured/Pattern/Make/Globals.antt =====
-- include/ghex/structured/pattern.hpp: the assignment of the global extents leaves the rest of the
-- patterns as it is.
use mathlib.Core.Option.{some-injective}
use ghex.Base.{
  ℕ, suc, ◌+◌, ◌<◌, ◌≡◌, refl, ap, ap₂, sym, ◌∙◌, subst, List, [], ◌∷◌, Option, some, ◌>>=◌,
  >>=-eq-some, arith, map, All, length, length-map,
}
use ghex.Base.Vec.{Vec}
use ghex.Base.Int.{ℤ}
use ghex.Structured.Space.{Box2}
use ghex.Structured.Pattern.Domains.{ExtendedId, Pattern, assign_global, set_global, domains_of}
use ghex.Structured.Pattern.Make.{Rank, set_globals}
use ghex.Structured.Pattern.Make.World.{AllFresh, IsFresh, gathered, id_of, ids_by_rank}
use ghex.Structured.Pattern.Make.SetUp.{all_ids}

module _ {n : ℕ} where
  domains_of-assign_global :
      (a b : Vec ℤ n) (ps : List (Pattern n × List (Box2 n)))
      → domains_of (assign_global a b ps) ≡ domains_of ps
  unfolding domains_of assign_global
  domains_of-assign_global a b [] = refl
  domains_of-assign_global a b ((p, h) ∷ ps) =
      ap (λ l. (p.id, p.extents) ∷ l) (domains_of-assign_global a b ps)

  assign_global-IsFresh :
      (a b : Vec ℤ n) (r : ℕ) (ps : List (Pattern n × List (Box2 n)))
      → All (IsFresh r) ps
      → All (IsFresh r) (assign_global a b ps)
  unfolding assign_global
  assign_global-IsFresh a b r [] f = tt
  assign_global-IsFresh a b r ((p, h) ∷ ps) f = (f.0, assign_global-IsFresh a b r ps f.1)

  -- What is kept of the patterns from the rank `r` on.
  abbrev pub IsKept :
      ℕ → List (List (Pattern n × List (Box2 n))) → List (List (Pattern n × List (Box2 n))) → Type 0
  IsKept r pss qss = AllFresh r qss × (gathered qss ≡ gathered pss)

  set_global-kept :
      (dss : List (List (ExtendedId × Box2 n))) (r : ℕ) (ps qs : List (Pattern n × List (Box2 n)))
      → set_global dss ps ≡ some qs
      → All (IsFresh r) ps
      → All (IsFresh r) qs × (domains_of qs ≡ domains_of ps)
  unfolding set_global
  set_global-kept dss r [] qs e f = cc
  set_global-kept dss r ((p, h) ∷ ps) qs e f =
      subst (λ l. All (IsFresh r) l × (domains_of l ≡ domains_of ((p, h) ∷ ps)))
        (some-injective _ qs e)
        (assign_global-IsFresh _ _ r ((p, h) ∷ ps) f, domains_of-assign_global _ _ ((p, h) ∷ ps))

  pub set_globals-IsKept :
      (dss : List (List (ExtendedId × Box2 n))) (r : ℕ)
      (pss qss : List (List (Pattern n × List (Box2 n))))
      → set_globals dss pss ≡ some qss
      → AllFresh r pss
      → IsKept r pss qss
  unfolding set_globals
  set_globals-IsKept dss r [] qss e f = subst (IsKept r []) (some-injective [] qss e) (tt, refl)
  set_globals-IsKept dss r (ps ∷ pss) qss e f =
      let (qs, a, e') = >>=-eq-some (set_global dss ps) _ e in
      let (rest, b, e'') = >>=-eq-some (set_globals dss pss) _ e' in
      let (here, same) = set_global-kept dss r ps qs a f.0 in
      let (later, others) = set_globals-IsKept dss (r + 1) pss rest b f.1 in
      subst (IsKept r (ps ∷ pss)) (some-injective (qs ∷ rest) qss e'')
        ((here, later), ap₂ ◌∷◌ same others)

  -- Where every rank has a domain, the global extents are found.
  pub set_globals_total :
      (dss : List (List (ExtendedId × Box2 n))) (pss : List (List (Pattern n × List (Box2 n))))
      → All (λ ps. 0 < length ps) pss
      → (qss : List (List (Pattern n × List (Box2 n)))) × (set_globals dss pss ≡ some qss)
  unfolding set_globals set_global
  set_globals_total dss [] h = ([], refl)
  set_globals_total dss ([] ∷ pss) h = absurd (omega (arith, h.0))
  set_globals_total dss (((p, halos) ∷ ps) ∷ pss) h =
      let (qss, e) = set_globals_total dss pss h.1 in (_ ∷ qss, ap (add _) e)
    where
      add :
          List (Pattern n × List (Box2 n))
          → Option (List (List (Pattern n × List (Box2 n))))
          → Option (List (List (Pattern n × List (Box2 n))))
      add qs rest = rest >>= λ qss. some (qs ∷ qss)

  length-domains_of : (ps : List (Pattern n × List (Box2 n))) → length (domains_of ps) ≡ length ps
  unfolding domains_of
  length-domains_of [] = refl
  length-domains_of ((p, h) ∷ ps) = ap suc (length-domains_of ps)

  -- Patterns with the ids of the domains are there where the domains are.
  pub patterns_of_domains :
      (pss : List (List (Pattern n × List (Box2 n)))) (ranks : List (Rank n))
      → ids_by_rank (gathered pss) ≡ all_ids ranks
      → All (λ x. 0 < length x.domains) ranks
      → All (λ ps. 0 < length ps) pss
  patterns_of_domains [] ranks e h = tt
  patterns_of_domains (ps ∷ pss) [] e h = cc
  patterns_of_domains (ps ∷ pss) (x ∷ ranks) e h =
      let first : map id_of (domains_of ps) ≡ map (λ d. d.0.id) x.domains = cc in
      let rest : ids_by_rank (gathered pss) ≡ all_ids ranks = cc in
      let same =
        sym (length-map id_of (domains_of ps))
        ∙ ap length first
        ∙ length-map (λ d. d.0.id) x.domains in
      (omega (arith, same, length-domains_of ps, h.0), patterns_of_domains pss ranks rest h.1)
