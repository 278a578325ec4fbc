-- ===== src/Structured/Pattern/Make/Rounds.antt =====
-- include/ghex/structured/pattern.hpp: the loop over all ranks, at one rank.
use mathlib.Core.Option
use mathlib.Core.Path.{fun_ext}
use mathlib.Core.List
use mathlib.Core.Logic.{◌≢◌}
use native.Mathlib.Decide.{}
use ghex.Base.{
  ℕ, ◌+◌, ◌≡◌, refl, sym, ap, ◌∙◌, subst, true, false, List, [], ◌∷◌, ◌++◌, some, arith, ◌==◌, ltb,
  if◌then◌else◌, map, Bool-cases, Option-cases, inl, inr, All,
}
use ghex.Base.OrderedMap.{lookup, lookup-AllValues, AllValues}
use ghex.Base.OrderedMap.Sorted.{IsSorted}
use ghex.Base.Membership.{In, Distinct, NoRepeat, NoRepeat-map, Distinct-of_map}
use ghex.Structured.Space.{}
use ghex.Structured.Pattern.Domains.{less, Pattern, DomainMap, RankMap}
use ghex.Structured.Pattern.Exchange.{connect, connect_all}
use ghex.Structured.Pattern.Exchange.RoundTrip.{}
use ghex.Structured.Pattern.Exchange.Channel.{connect-append_entry}
use ghex.Structured.Pattern.Make.Find.{}
use ghex.Structured.Pattern.Make.Sends.{from, sent}
use ghex.Structured.Pattern.Make.Grow.{domain_of, ids, ids-map, grow, grow_nil, merge_domains-grow}

module _ {n : ℕ} where
  -- The keys of a map of send halos are in order, on all its levels.
  abbrev pub DomainsSorted : DomainMap n → Type 0
  DomainsSorted d = IsSorted ltb d × AllValues ltb (λ h. IsSorted less h) d

  abbrev pub AllSorted : RankMap n → Type 0
  AllSorted m = IsSorted ltb m × AllValues ltb DomainsSorted m

  module _ (me : ℕ) where
    -- A map that another rank may have: what it holds for this rank is for the given domains.
    abbrev pub Fits : List ℕ → RankMap n → Type 0
    Fits l m = AllSorted m × All (λ x. In x.0 l) (from (lookup ltb me m))

    from-DomainsSorted : (m : RankMap n) → AllSorted m → DomainsSorted (from (lookup ltb me m))
    from-DomainsSorted m s = elim (Option-cases (lookup ltb me m)) [
      | inl e ↦ subst (λ o. DomainsSorted (from o)) (sym e) (tt, tt)
      | inr (d, e) ↦
          subst (λ o. DomainsSorted (from o)) (sym e)
            (lookup-AllValues ltb DomainsSorted me m d s.1 e)
    ]

    pub sent-IsSorted : (id : ℕ) (m : RankMap n) → AllSorted m → IsSorted less (sent m me id)
    sent-IsSorted id m s =
        let inner = from-DomainsSorted m s in
        elim (Option-cases (lookup ltb id (from (lookup ltb me m)))) [
          | inl e ↦ subst (λ o. IsSorted less (from o)) (sym e) tt
          | inr (h, e) ↦
              subst (λ o. IsSorted less (from o)) (sym e)
                (lookup-AllValues ltb (λ x. IsSorted less x) id (from (lookup ltb me m)) h inner.1
                  e)
        ]

    -- One round adds what the other rank's map has for the patterns here.
    abbrev pub grow_from : RankMap n → Pattern n → Pattern n
    grow_from m = grow ◌++◌ (from (lookup ltb me m))

    connect-grow :
        (m : RankMap n) (ps : List (Pattern n))
        → Fits (ids ps) m
        → Distinct domain_of ps
        → Option.map (λ x. x.0) (connect me m ps) ≡ some (map (grow_from m) ps)
    connect-grow m ps fits d =
        ap (Option.map (λ x. x.0)) (connect-append_entry me m ps fits.0.0)
        ∙ elim (Option-cases (lookup ltb me m)) [
          | inl e ↦
              rw e (ap some (sym (List.map-id ps) ∙ ap (λ g. map g ps) (fun_ext (grow_nil ◌++◌))))
          | inr (own, e) ↦
              let s = subst (λ o. DomainsSorted (from o)) e (from-DomainsSorted m fits.0) in
              let k = subst (λ o. All (λ x. In x.0 (ids ps)) (from o)) e fits.1 in
              rw (e, merge_domains-grow ◌++◌ own ps s.0 k d) refl
        ]

    -- All rounds, from the rank `r` on.
    abbrev pub grow_all : ℕ → List (RankMap n) → Pattern n → Pattern n
    grow_all r [] p = p
    grow_all r (m ∷ ms) p = grow_all (r + 1) ms (if r == me then p else grow_from m p)

    pub grow_all_skip :
        (r : ℕ) (m : RankMap n) (ms : List (RankMap n)) (p : Pattern n)
        → (r == me) ≡ true
        → grow_all r (m ∷ ms) p ≡ grow_all (r + 1) ms p
    grow_all_skip r m ms p e = rw e refl

    pub grow_all_turn :
        (r : ℕ) (m : RankMap n) (ms : List (RankMap n)) (p : Pattern n)
        → (r == me) ≡ false
        → grow_all r (m ∷ ms) p ≡ grow_all (r + 1) ms (grow_from m p)
    grow_all_turn r m ms p e = rw e refl

    -- The maps of all other ranks fit.
    abbrev pub AllFit : ℕ → List ℕ → List (RankMap n) → Type 0
    AllFit r l [] = Unit {0}
    AllFit r l (m ∷ ms) = (r ≢ me → Fits l m) × AllFit (r + 1) l ms

    pub connect_all-grow :
        (r : ℕ) (ms : List (RankMap n)) (ps : List (Pattern n))
        → AllFit r (ids ps) ms
        → Distinct domain_of ps
        → connect_all me r ms ps ≡ some (map (grow_all r ms) ps)
    unfolding connect_all
    connect_all-grow r [] ps fit d = ap some (sym (List.map-id ps))
    connect_all-grow r (m ∷ ms) ps fit d = elim (Bool-cases (r == me)) [
      | inl e ↦ rw e (
          connect_all-grow (r + 1) ms ps fit.1 d
          ∙ ap (λ g. some (map g ps)) (fun_ext (λ p. sym (grow_all_skip r m ms p e))))
      | inr e ↦
          let same = ids-map (grow_from m) ps (λ p. refl) in
          let dist =
            Distinct-of_map domain_of (map (grow_from m) ps)
              (subst NoRepeat (sym same) (NoRepeat-map domain_of ps d)) in
          rw (e, connect-grow m ps (fit.0 (differ r me e)) d)
            (connect_all-grow (r + 1) ms (map (grow_from m) ps)
                (subst (λ l. AllFit (r + 1) l ms) (sym same) fit.1) dist
              ∙ ap some (List.map-map (grow_all (r + 1) ms) (grow_from m) ps)
              ∙ ap (λ g. some (map g ps)) (fun_ext (λ p. sym (grow_all_turn r m ms p e))))
    ]
      where
        differ : (a b : ℕ) → (a == b) ≡ false → a ≢ b
        differ a b h = ground arith
