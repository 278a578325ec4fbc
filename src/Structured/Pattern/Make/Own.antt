-- ===== src/Structured/Pattern/Make/Own.antt =====
-- include/ghex/structured/pattern.hpp: a rank's send halos for itself, and those that it keeps for
-- the other ranks.
use mathlib.Core.List
use mathlib.Core.Logic.{◌≢◌}
use mathlib.Core.Path.{fun_ext}
use ghex.Base.{
  ℕ, ◌≡◌, refl, sym, ap, ◌∙◌, subst, true, List, [], ◌∷◌, Option, none, some, arith, ◌==◌, ltb, map,
  Bool-cases, Option-cases, inl, inr, All, ◌>>=◌, zero,
}
use ghex.Base.OrderedMap.{lookup, lookup-AllValues}
use ghex.Base.OrderedMap.Sorted.{IsSorted}
use ghex.Base.NatMap.{}
use ghex.Base.Membership.{In, Distinct}
use ghex.Structured.Space.{}
use ghex.Structured.Pattern.Domains.{Pattern, DomainMap, RankMap}
use ghex.Structured.Pattern.Exchange.{add_own, erase, keep_own}
use ghex.Structured.Pattern.Exchange.RoundTrip.{
  merge, update, merge_domains, with_domain-update, beside,
}
use ghex.Structured.Pattern.Exchange.Channel.{at_head}
use ghex.Structured.Pattern.Make.Find.{insert_all-merge}
use ghex.Structured.Pattern.Make.Sends.{from}
use ghex.Structured.Pattern.Make.Grow.{domain_of, ids, grow, grow_nil, merge_domains-grow}
use ghex.Structured.Pattern.Make.Rounds.{DomainsSorted}
use ghex.Structured.Pattern.Make.World.{}
use ghex.Structured.Pattern.Make.Valid.{IsValid, from-DomainsExist}

module _ {n : ℕ} where
  erase-All :
      (P : ℕ × DomainMap n → Type 0) (rank : ℕ) (m : RankMap n) → All P m → All P (erase rank m)
  unfolding erase
  erase-All P rank [] h = tt
  erase-All P rank ((r, d) ∷ m) h = elim (Bool-cases (r == rank)) [
    | inl e ↦ rw e h.1
    | inr e ↦ rw e (h.0, erase-All P rank m h.1)
  ]

  erase-IsSorted : (rank : ℕ) (m : RankMap n) → IsSorted ltb m → IsSorted ltb (erase rank m)
  unfolding erase
  erase-IsSorted rank [] h = tt
  erase-IsSorted rank ((r, d) ∷ m) h = elim (Bool-cases (r == rank)) [
    | inl e ↦ rw e h.1
    | inr e ↦ rw e (erase-All (λ x. ltb r x.0 ≡ true) rank m h.0, erase-IsSorted rank m h.1)
  ]

  erase-IsValid :
      (ids_at : ℕ → List ℕ) (rank : ℕ) (m : RankMap n)
      → IsValid ids_at m
      → IsValid ids_at (erase rank m)
  erase-IsValid ids_at rank m v = (
    (erase-IsSorted rank m v.0.0, erase-All (λ x. DomainsSorted x.1) rank m v.0.1),
    erase-All (λ x. All (λ y. In y.0 (ids_at x.0)) x.1) rank m v.1,
  )

  lookup-erase_ne :
      (rank q : ℕ) (m : RankMap n)
      → IsSorted ltb m
      → q ≢ rank
      → lookup ltb q (erase rank m) ≡ lookup ltb q m
  unfolding erase
  lookup-erase_ne rank q [] s ne = refl
  lookup-erase_ne rank q ((r, d) ∷ m) s ne = elim (Bool-cases (r == rank)) [
    | inl e ↦ elim (at_head q r d m s) [
      | inl (other, same) ↦ rw e (sym same)
      | inr (eq, here, later) ↦ absurd (ne (both q r rank eq e))
    ]
    | inr e ↦ rw e (step (lookup-erase_ne rank q m s.1 ne))
  ]
    where
      both : (q r rank : ℕ) → (r == q) ≡ true → (r == rank) ≡ true → q ≡ rank
      both q r rank h k = ground arith

      step :
          lookup ltb q (erase rank m) ≡ lookup ltb q m
          → lookup ltb q ((r, d) ∷ erase rank m) ≡ lookup ltb q ((r, d) ∷ m)
      step h = unfold lookup in rw h refl

  add_own-merge_domains :
      (d : DomainMap n) (ps : List (Pattern n)) → add_own d ps ≡ merge_domains (λ v w. v) d ps
  unfolding add_own
  add_own-merge_domains [] ps = refl
  add_own-merge_domains ((id, es) ∷ d) ps =
      rw (fun_ext (insert_all-merge es), with_domain-update id (merge (λ v w. v) es) zero ps)
        (step (add_own-merge_domains d) (update id (merge (λ v w. v) es) ps))
    where
      step :
          ((qs : List (Pattern n)) → add_own d qs ≡ merge_domains (λ v w. v) d qs)
          → (o : Option (List (Pattern n)))
          → (beside zero o >>= λ r. add_own d r.0) ≡ (o >>= merge_domains (λ v w. v) d)
      step ih none = refl
      step ih (some qs) = ih qs

  -- A rank's own send halos go to its patterns, and what it has for the others stays.
  pub keep_own-grow :
      (ids_at : ℕ → List ℕ) (rank : ℕ) (m : RankMap n) (ps : List (Pattern n))
      → IsValid ids_at m
      → ids ps ≡ ids_at rank
      → Distinct domain_of ps
      → (rest : RankMap n) × (keep_own rank m ps
          ≡ some (map (grow (λ v w. v) (from (lookup ltb rank m))) ps, rest))
        × IsValid ids_at rest
        × ((q : ℕ) → q ≢ rank → lookup ltb q rest ≡ lookup ltb q m)
  unfolding keep_own
  keep_own-grow ids_at rank m ps v same d = elim (Option-cases (lookup ltb rank m)) [
    | inl e ↦ (
      m,
      rw (e, keep_own)
          (ap paired (sym (List.map-id ps) ∙ ap (λ g. map g ps) (fun_ext (grow_nil (λ v w. v))))),
      v,
      λ q ne. refl,
    )
    | inr (own, e) ↦
        let sorted = lookup-AllValues ltb DomainsSorted rank m own v.0.1 e in
        let exist : All (λ x. In x.0 (ids ps)) own =
          subst (λ l. All (λ x. In x.0 l) own) (sym same)
            (subst (λ o. All (λ x. In x.0 (ids_at rank)) (from o)) e
              (from-DomainsExist ids_at rank m v)) in
        (
          erase rank m,
          rw
              (
                e,
                keep_own,
                add_own-merge_domains own ps,
                merge_domains-grow (λ v w. v) own ps sorted.0 exist d,
              )
              refl,
          erase-IsValid ids_at rank m v,
          λ q ne. lookup-erase_ne rank q m v.0.0 ne,
        )
  ]
    where
      paired : List (Pattern n) → Option (List (Pattern n) × RankMap n)
      paired l = some (l, m)
