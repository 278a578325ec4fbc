-- ===== src/Structured/Pattern/Make/World.antt =====
-- include/ghex/structured/pattern.hpp: the domains of all ranks, as the set-up and `all_gather` give
-- them.
use mathlib.Core.List
use mathlib.Core.Logic.{◌≢◌}
use mathlib.Core.Option.{none-ne-some, some-injective}
use ghex.Base.{
  ℕ, zero, suc, ◌+◌, ◌≡◌, refl, sym, subst, true, false, List, [], ◌∷◌, some, arith, ◌==◌, map,
  Bool-cases, inl, inr, All, get_elem?,
}
use ghex.Base.Membership.{
  In, Distinct, Distinct-of_map, NoRepeat, NoRepeat-get, In-flat_inv, All-In, All-of_In,
}
use ghex.Structured.Space.{Box2}
use ghex.Structured.Pattern.{}
use ghex.Structured.Pattern.Domains.{ExtendedId, Pattern, domains_of, find_extents}
use ghex.Structured.Pattern.Make.{}
use ghex.Structured.Pattern.Make.Keys.{untagged}
use ghex.Structured.Pattern.Make.Prepared.{Untagged}

-- What `all_gather` returns.
abbrev pub gathered :
    {n : ℕ} → List (List (Pattern n × List (Box2 n))) → List (List (ExtendedId × Box2 n))
gathered = map domains_of

-- The ids of the domains of each rank.
abbrev pub id_of : {n : ℕ} → ExtendedId × Box2 n → ℕ
id_of x = x.0.id

abbrev pub ids_by_rank : {n : ℕ} → List (List (ExtendedId × Box2 n)) → List (List ℕ)
ids_by_rank = map (map id_of)

self : (a : ℕ) → (a == a) ≡ true
self a = ground arith

module _ {n : ℕ} where
  -- A pattern as the rank `r` sets it up.
  abbrev pub IsFresh : ℕ → Pattern n × List (Box2 n) → Type 0
  IsFresh r x =
      ((x.0.id.rank ≡ r) × (x.0.id.tag ≡ 0)) × (x.0.send_halos ≡ []) × (x.0.recv_halos ≡ [])

  -- The patterns of all ranks from the rank `r` on are fresh.
  abbrev pub AllFresh : ℕ → List (List (Pattern n × List (Box2 n))) → Type 0
  AllFresh r [] = Unit {0}
  AllFresh r (ps ∷ pss) = All (IsFresh r) ps × AllFresh (r + 1) pss

  pub AllFresh-get :
      (r j k : ℕ) (pss : List (List (Pattern n × List (Box2 n))))
      (ps : List (Pattern n × List (Box2 n)))
      → AllFresh r pss
      → get_elem? pss j ≡ some ps
      → k ≡ r + j
      → All (IsFresh k) ps
  AllFresh-get r j k [] ps a g e = cc
  AllFresh-get r zero k (x ∷ pss) ps a g e =
      let same : x ≡ ps = cc in
      let at : k ≡ r = omega arith in
      subst (λ i. All (IsFresh i) ps) (sym at) (subst (λ l. All (IsFresh r) l) same a.0)
  AllFresh-get r (suc j) k (x ∷ pss) ps a g e = AllFresh-get (r + 1) j k pss ps a.1 g (omega arith)

  pub gathered-get :
      (pss : List (List (Pattern n × List (Box2 n)))) (j : ℕ) (ds : List (ExtendedId × Box2 n))
      → get_elem? (gathered pss) j ≡ some ds
      → (ps : List (Pattern n × List (Box2 n))) × (get_elem? pss j ≡ some ps) × (ds ≡ domains_of ps)
  gathered-get [] j ds g = cc
  gathered-get (ps ∷ pss) zero ds g = (ps, refl, sym (some-injective (domains_of ps) ds g))
  gathered-get (ps ∷ pss) (suc j) ds g = gathered-get pss j ds g

  pub ids_by_rank-get :
      (dss : List (List (ExtendedId × Box2 n))) (j : ℕ) (ds : List (ExtendedId × Box2 n))
      → get_elem? dss j ≡ some ds
      → get_elem? (ids_by_rank dss) j ≡ some (map id_of ds)
  ids_by_rank-get [] j ds g = cc
  ids_by_rank-get (x ∷ dss) zero ds g = cc
  ids_by_rank-get (x ∷ dss) (suc j) ds g = ids_by_rank-get dss j ds g

  pub domains_of-IsFresh :
      (r : ℕ) (ps : List (Pattern n × List (Box2 n))) (x : ExtendedId × Box2 n)
      → All (IsFresh r) ps
      → In x (domains_of ps)
      → (x.0.rank ≡ r) × (x.0.tag ≡ 0)
  unfolding domains_of
  domains_of-IsFresh r [] x a i = absurd i
  domains_of-IsFresh r ((p, h) ∷ ps) x a (inl e) =
      subst (λ y. (y.0.rank ≡ r) × (y.0.tag ≡ 0)) (sym e) a.0.0
  domains_of-IsFresh r ((p, h) ∷ ps) x a (inr i) = domains_of-IsFresh r ps x a.1 i

  -- The domain is one of those that its rank has gathered.
  abbrev pub IsKnown : List (List (ExtendedId × Box2 n)) → ExtendedId → Type 0
  IsKnown dss k =
      (ds : List (ExtendedId × Box2 n)) × (e : Box2 n) × (get_elem? dss k.rank ≡ some ds)
      × In (k, e) ds

  pub gathered-IsKnown :
      (pss : List (List (Pattern n × List (Box2 n))))
      → AllFresh 0 pss
      → All (λ x. Untagged (IsKnown (gathered pss)) x.0) (List.flat_map (λ x. x) (gathered pss))
  gathered-IsKnown pss fresh =
      All-of_In (λ x. Untagged (IsKnown (gathered pss)) x.0) (List.flat_map (λ x. x) (gathered pss))
        known
    where
      known :
          (x : ExtendedId × Box2 n)
          → In x (List.flat_map (λ x. x) (gathered pss))
          → Untagged (IsKnown (gathered pss)) x.0
      known x i =
          let (r, ds, g, j) = In-flat_inv (gathered pss) x i in
          let (ps, a, b) = gathered-get pss r ds g in
          let (rank, tag) =
            domains_of-IsFresh r ps x (AllFresh-get 0 r r pss ps fresh a (omega arith))
              (subst (In x) b j) in
          let same : untagged x.0 ≡ x.0 = retag x.0 tag in
          (
            tag,
            subst (IsKnown (gathered pss)) (sym same)
                (ds, x.1, subst (λ k. get_elem? (gathered pss) k ≡ some ds) (sym rank) g, j),
          )
        where
          retag : (k : ExtendedId) → k.tag ≡ 0 → untagged k ≡ k
          retag k e = cc

  -- The extents of a domain are found by its id.
  find_extents-In :
      (ds : List (ExtendedId × Box2 n)) (k : ExtendedId) (e : Box2 n)
      → Distinct id_of ds
      → In (k, e) ds
      → find_extents k.id ds ≡ some e
  unfolding find_extents
  find_extents-In [] k e d i = absurd i
  find_extents-In ((l, x) ∷ ds) k e d (inl q) =
      subst (λ y. find_extents y.0.id ((l, x) ∷ ds) ≡ some y.1) (sym q) (rw (self l.id) refl)
  find_extents-In ((l, x) ∷ ds) k e d (inr i) =
      let ne : (l.id == k.id) ≡ false =
        differ l.id k.id (All-In (λ y. l.id ≢ y.0.id) (k, e) ds d.0 i) in
      rw ne (find_extents-In ds k e d.1 i)
    where
      differ : (a b : ℕ) → a ≢ b → (a == b) ≡ false
      differ a b h = ground arith

  -- Where no two domains have one id, what is known is found.
  pub IsKnown-Resolves :
      (dss : List (List (ExtendedId × Box2 n))) (key : ExtendedId)
      → NoRepeat (List.flat_map (λ x. x) (ids_by_rank dss))
      → (k : IsKnown dss (untagged key))
      → (get_elem? dss key.rank ≡ some k.0) × (find_extents key.id k.0 ≡ some k.1)
  IsKnown-Resolves dss key once (ds, e, g, i) = (
    g,
    find_extents-In ds (untagged key) e
        (Distinct-of_map id_of ds (
          NoRepeat-get (ids_by_rank dss) key.rank (map id_of ds) once
            (ids_by_rank-get dss key.rank ds g)))
        i,
  )

  pub find_extents-id :
      (ds : List (ExtendedId × Box2 n)) (i : ℕ) (e : Box2 n)
      → find_extents i ds ≡ some e
      → In i (map id_of ds)
  unfolding find_extents
  find_extents-id [] i e h = absurd (none-ne-some e h)
  find_extents-id ((l, x) ∷ ds) i e h = elim (Bool-cases (l.id == i)) [
    | inl a ↦ inl (equal l.id i a)
    | inr a ↦ inr (find_extents-id ds i e (rw a at h))
  ]
    where
      equal : (a b : ℕ) → (a == b) ≡ true → b ≡ a
      equal a b h = ground arith
