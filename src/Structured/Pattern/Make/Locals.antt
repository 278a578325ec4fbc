-- ===== src/Structured/Pattern/Make/Locals.antt =====
-- include/ghex/structured/pattern.hpp: what every rank computes before the exchange.
use mathlib.Core.List
use mathlib.Core.Logic.{◌≢◌}
use ghex.Base.{
  ℕ, zero, suc, ◌+◌, ◌≡◌, refl, sym, ap, ◌∙◌, subst, List, [], ◌∷◌, some, arith, ltb, map, All,
  get_elem?,
}
use ghex.Base.OrderedMap.{lookup}
use ghex.Base.Membership.{In, Distinct, Distinct-of_map, NoRepeat, NoRepeat-get, All-of_In, All-In}
use ghex.Structured.Space.{Box2}
use ghex.Structured.Pattern.{recast}
use ghex.Structured.Pattern.Domains.{
  ExtendedId, Pattern, RankMap, set_all_tags, receive_all, domains_of,
}
use ghex.Structured.Pattern.Make.{Local, make_local, make_locals, no_tags}
use ghex.Structured.Pattern.Make.Sends.{from}
use ghex.Structured.Pattern.Make.Translate.{Resolves, translate_all_total, translate_all_inv}
use ghex.Structured.Pattern.Make.Keys.{untagged}
use ghex.Structured.Pattern.Make.Grow.{domain_of, ids, grow}
use ghex.Structured.Pattern.Make.Prepared.{
  Untagged, IsPrepared, prepared, as_domain, prepared-as_domain, prepared-IsPrepared,
}
use ghex.Structured.Pattern.Make.Valid.{IsValid, add_send-IsValid}
use ghex.Structured.Pattern.Make.Own.{keep_own-grow}
use ghex.Structured.Pattern.Make.World.{
  id_of, ids_by_rank, ids_by_rank-get, IsFresh, AllFresh, IsKnown, IsKnown-Resolves,
  find_extents-id,
}
use ghex.Structured.Pattern.Domains.{translate_all}

module _ {n : ℕ} (dss : List (List (ExtendedId × Box2 n))) where
  abbrev pub ids_at : ℕ → List ℕ
  ids_at q = from (get_elem? (ids_by_rank dss) q)

  -- The domains of the rank `r` as it has computed them: its send halos for itself are in its
  -- patterns, those for the others in its map.
  abbrev pub IsLocal : ℕ → List (Pattern n × List (Box2 n)) → Local n → Type 0
  IsLocal r ps l =
      (m : RankMap n) × (translate_all dss (prepared dss ps) [] ≡ some m)
      × IsValid ids_at m
      × (l.patterns ≡ map (grow (λ v w. v) (from (lookup ltb r m))) (prepared dss ps))
      × IsValid ids_at l.send_halos_map
      × ((q : ℕ) → q ≢ r → lookup ltb q l.send_halos_map ≡ lookup ltb q m)
      × (l.max_tag ≡ (set_all_tags (receive_all dss ps) no_tags).1.max_tag)

  -- The ids of a rank's patterns.
  pub prepared-ids :
      (r : ℕ) (ps : List (Pattern n × List (Box2 n)))
      → get_elem? dss r ≡ some (domains_of ps)
      → ids (prepared dss ps) ≡ ids_at r
  prepared-ids r ps g =
      sym (List.map-map id_of as_domain (prepared dss ps))
      ∙ ap (map id_of) (prepared-as_domain dss ps)
      ∙ ap from (sym (ids_by_rank-get dss r (domains_of ps) g))

  module _ (once : NoRepeat (List.flat_map (λ x. x) (ids_by_rank dss)))
      (known : All (λ x. Untagged (IsKnown dss) x.0) (List.flat_map (λ x. x) dss)) where
    pub prepared-Distinct :
        (r : ℕ) (ps : List (Pattern n × List (Box2 n)))
        → get_elem? dss r ≡ some (domains_of ps)
        → Distinct domain_of (prepared dss ps)
    prepared-Distinct r ps g =
        let at = ids_by_rank-get dss r (domains_of ps) g in
        Distinct-of_map domain_of (prepared dss ps) (
          subst NoRepeat (sym (prepared-ids r ps g ∙ ap from at))
            (NoRepeat-get (ids_by_rank dss) r (map id_of (domains_of ps)) once at))

    abbrev IsReset : Pattern n × List (Box2 n) → Type 0
    IsReset x = (x.0.send_halos ≡ []) × (x.0.recv_halos ≡ [])

    pub prepared-All :
        (r : ℕ) (ps : List (Pattern n × List (Box2 n)))
        → All (IsFresh r) ps
        → All (IsPrepared (IsKnown dss)) (prepared dss ps)
    prepared-All r ps fresh =
        prepared-IsPrepared (IsKnown dss) dss ps known
          (All-of_In IsReset ps (λ x i. let f = All-In (IsFresh r) x ps fresh i in (f.1, f.2)))

    resolve : (key : ExtendedId) → IsKnown dss (untagged key) → (e : Box2 n) × Resolves dss key e
    resolve key k = let (a, b) = IsKnown-Resolves dss key once k in (k.1, (k.0, a, b))

    Resolves-ids_at :
        (key : ExtendedId) (e : Box2 n) → Resolves dss key e → In key.id (ids_at key.rank)
    Resolves-ids_at key e (ds, a, b) =
        subst (In key.id) (ap from (sym (ids_by_rank-get dss key.rank ds a)))
          (find_extents-id ds key.id e b)

    pub make_local_total :
        (r : ℕ) (ps : List (Pattern n × List (Box2 n)))
        → get_elem? dss r ≡ some (domains_of ps)
        → All (IsFresh r) ps
        → (l : Local n) × (make_local dss r ps ≡ some l) × IsLocal r ps l
    unfolding make_local
    make_local_total r ps g fresh =
        let ready = prepared-All r ps fresh in
        let resolves : All (λ p. All (λ x. (e : Box2 n) × Resolves dss x.0 e) p.recv_halos)
            (prepared dss ps) =
          All-of_In (λ p. All (λ x. (e : Box2 n) × Resolves dss x.0 e) p.recv_halos)
            (prepared dss ps)
            (λ p i.
              All-of_In (λ x. (e : Box2 n) × Resolves dss x.0 e) p.recv_halos
                (λ x j. resolve x.0 (
                  All-In (λ y. IsKnown dss (untagged y.0)) x p.recv_halos
                    (All-In (IsPrepared (IsKnown dss)) p (prepared dss ps) ready i).1 j))) in
        let (m, made) = translate_all_total dss (prepared dss ps) [] resolves in
        let valid =
          translate_all_inv dss (IsValid ids_at)
            (λ me key spaces e m res v.
              add_send-IsValid ids_at key.rank key.id (record me { tag = key.tag })
                (map (recast e) spaces) m (Resolves-ids_at key e res) v)
            (prepared dss ps) [] m made ((tt, tt), tt) in
        let (rest, kept, ok, same) =
          keep_own-grow ids_at r m (prepared dss ps) valid (prepared-ids r ps g)
            (prepared-Distinct r ps g) in
        (
          record {
            patterns = map (grow (λ v w. v) (from (lookup ltb r m))) (prepared dss ps);
            send_halos_map = rest;
            max_tag = (set_all_tags (receive_all dss ps) no_tags).1.max_tag;
          },
          rw (made, kept) refl,
          (m, made, valid, refl, ok, same, refl),
        )

    -- All ranks from `r` on.
    abbrev pub AllLocal : ℕ → List (List (Pattern n × List (Box2 n))) → List (Local n) → Type 0
    AllLocal r [] [] = Unit {0}
    AllLocal r [] (l ∷ ls) = ⊥
    AllLocal r (ps ∷ pss) [] = ⊥
    AllLocal r (ps ∷ pss) (l ∷ ls) = IsLocal r ps l × AllLocal (r + 1) pss ls

    pub make_locals_total :
        (r : ℕ) (pss : List (List (Pattern n × List (Box2 n))))
        → ((j : ℕ) (ps : List (Pattern n × List (Box2 n)))
            → get_elem? pss j ≡ some ps
            → get_elem? dss (r + j) ≡ some (domains_of ps))
        → AllFresh r pss
        → (ls : List (Local n)) × (make_locals dss r pss ≡ some ls) × AllLocal r pss ls
    unfolding make_locals
    make_locals_total r [] g fresh = ([], refl, tt)
    make_locals_total r (ps ∷ pss) g fresh =
        let here =
          subst (λ k. get_elem? dss k ≡ some (domains_of ps)) (omega arith) (g 0 ps refl) in
        let (l, a, p) = make_local_total r ps here fresh.0 in
        let later =
          λ (j : ℕ) (qs : List (Pattern n × List (Box2 n))) (h : get_elem? pss j ≡ some qs).
            subst (λ k. get_elem? dss k ≡ some (domains_of qs)) (shift j) (g (suc j) qs h) in
        let (ls, b, q) = make_locals_total (r + 1) pss later fresh.1 in
        (l ∷ ls, rw (a, b) refl, (p, q))
      where
        shift : (j : ℕ) → r + suc j ≡ (r + 1) + j
        shift j = omega arith

    pub AllLocal-get :
        (r j k : ℕ) (pss : List (List (Pattern n × List (Box2 n)))) (ls : List (Local n))
        (l : Local n)
        → AllLocal r pss ls
        → get_elem? ls j ≡ some l
        → k ≡ r + j
        → (ps : List (Pattern n × List (Box2 n))) × (get_elem? pss j ≡ some ps) × IsLocal k ps l
    AllLocal-get r j k [] [] l a g e = cc
    AllLocal-get r j k [] (x ∷ ls) l a g e = absurd a
    AllLocal-get r j k (ps ∷ pss) [] l a g e = absurd a
    AllLocal-get r zero k (ps ∷ pss) (x ∷ ls) l a g e =
        let same : x ≡ l = cc in
        let at : r ≡ k = omega arith in
        (ps, refl, subst (λ i. IsLocal i ps l) at (subst (IsLocal r ps) same a.0))
    AllLocal-get r (suc j) k (ps ∷ pss) (x ∷ ls) l a g e =
        AllLocal-get (r + 1) j k pss ls l a.1 g (omega arith)

    pub AllLocal-place :
        (r j k : ℕ) (pss : List (List (Pattern n × List (Box2 n)))) (ls : List (Local n))
        (ps : List (Pattern n × List (Box2 n)))
        → AllLocal r pss ls
        → get_elem? pss j ≡ some ps
        → k ≡ r + j
        → (l : Local n) × (get_elem? ls j ≡ some l) × IsLocal k ps l
    AllLocal-place r j k [] ls ps a g e = cc
    AllLocal-place r j k (x ∷ pss) [] ps a g e = absurd a
    AllLocal-place r zero k (x ∷ pss) (l ∷ ls) ps a g e =
        let same : x ≡ ps = cc in
        let at : r ≡ k = omega arith in
        (l, refl, subst (λ i. IsLocal i ps l) at (subst (λ y. IsLocal r y l) same a.0))
    AllLocal-place r (suc j) k (x ∷ pss) (l ∷ ls) ps a g e =
        AllLocal-place (r + 1) j k pss ls ps a.1 g (omega arith)
