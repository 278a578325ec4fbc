-- ===== src/Structured/Pattern/Make/Matched.antt =====
-- include/ghex/structured/pattern.hpp: the send halos of one rank are the receive halos of another.
use mathlib.Core.List
use mathlib.Core.Logic.{}
use mathlib.Core.Option.{some-injective}
use native.Mathlib.Decide.{}
use ghex.Base.{ℕ, ◌≡◌, refl, sym, ap, ◌∙◌, subst, List, [], some, arith, ltb, map, All, get_elem?}
use ghex.Base.OrderedMap.{lookup}
use ghex.Base.Membership.{In, In-map, In-map_inv, Distinct, NoRepeat, All-In, All-of_In}
use ghex.Structured.Space.{Box2}
use ghex.Structured.Pattern.{recast}
use ghex.Structured.Pattern.Domains.{ExtendedId, Pattern, find_extents}
use ghex.Structured.Pattern.Make.{Local}
use ghex.Structured.Pattern.Make.Find.{find}
use ghex.Structured.Pattern.Make.Sends.{from, sent}
use ghex.Structured.Pattern.Make.Translate.{translate_all-Translated}
use ghex.Structured.Pattern.Make.Keys.{untagged}
use ghex.Structured.Pattern.Make.Grow.{domain_of, grow}
use ghex.Structured.Pattern.Make.Rounds.{grow_all}
use ghex.Structured.Pattern.Make.Valid.{}
use ghex.Structured.Pattern.Make.Gain.{}
use ghex.Structured.Pattern.Make.Prepared.{IsPrepared, prepared, as_domain, prepared-as_domain}
use ghex.Structured.Pattern.Make.World.{
  ids_by_rank, AllFresh, AllFresh-get, IsKnown, IsKnown-Resolves, gathered, gathered-get,
  gathered-IsKnown,
}
use ghex.Structured.Pattern.Make.SetUp.{}
use ghex.Structured.Pattern.Make.Locals.{
  IsLocal, AllLocal, AllLocal-place, prepared-Distinct, prepared-All,
}
use ghex.Structured.Pattern.Make.Results.{frame, grow_all-frame, results, results-get, results_at}
use ghex.Structured.Pattern.Make.Answer.{found_after}
use ghex.Structured.Pattern.Make.Owners.{gathered_at, maps, local}

-- The tag that a domain receives under.
abbrev pub tagged : ExtendedId → ℕ → ExtendedId
tagged k t = record k { tag = t }

-- The halos `spaces` that the domain `me` receives under the key are sent under the tag by the
-- domain and the rank that the key names, in that domain's local coordinates.
abbrev pub IsSent :
    {n : ℕ} → List (List (Pattern n)) → ExtendedId → ExtendedId → List (Box2 n) → Type 0
IsSent {n} final me key spaces =
    (qs : List (Pattern n)) × (s : Pattern n) × (get_elem? final key.rank ≡ some qs)
    × In s qs
    × (s.id ≡ untagged key)
    × (find (tagged me key.tag) s.send_halos
        ≡ some (tagged me key.tag, map (recast s.extents) spaces))

module _ {n : ℕ} (pss : List (List (Pattern n × List (Box2 n)))) (fresh : AllFresh 0 pss)
    (once : NoRepeat (List.flat_map (λ x. x) (ids_by_rank (gathered pss)))) (ls : List (Local n))
    (all : AllLocal (gathered pss) once (gathered-IsKnown pss fresh) 0 pss ls) where
  abbrev pub D : List (List (ExtendedId × Box2 n))
  D = gathered pss

  abbrev pub final : List (List (Pattern n))
  final = results (maps pss fresh once ls all) 0 ls

  pub prepared_at :
      (r : ℕ) (ps : List (Pattern n × List (Box2 n)))
      → get_elem? pss r ≡ some ps
      → All (IsPrepared (IsKnown D)) (prepared D ps)
  prepared_at r ps g =
      prepared-All D once (gathered-IsKnown pss fresh) r ps
        (AllFresh-get 0 r r pss ps fresh g (omega arith))

  -- The pattern of a domain that is known, at its rank.
  pattern_of :
      (key : ExtendedId) (known : IsKnown D (untagged key))
      → (qs : List (Pattern n × List (Box2 n))) × (t : Local n) × (s : Pattern n) × (get_elem? pss
            key.rank
          ≡ some qs)
        × (get_elem? ls key.rank ≡ some t)
        × IsLocal D key.rank qs t
        × In s (prepared D qs)
        × ((untagged key, known.1) ≡ as_domain s)
  pattern_of key known =
      let q = key.rank in
      let (qs, gq, same) = gathered-get pss q known.0 known.2 in
      let (t, gt, tel) =
        AllLocal-place D once (gathered-IsKnown pss fresh) 0 q q pss ls qs all gq (omega arith) in
      let (s, i, e) =
        In-map_inv as_domain (untagged key, known.1) (prepared D qs)
          (subst (In (untagged key, known.1)) (same ∙ sym (prepared-as_domain D qs)) known.3) in
      (qs, t, s, gq, gt, tel, i, e)

  -- A rank has the key's halos for another, with the extents that are known.
  translated :
      (r : ℕ) (l : Local n) (ps : List (Pattern n × List (Box2 n))) (p : Pattern n)
      (key : ExtendedId) (spaces : List (Box2 n)) (known : IsKnown D (untagged key))
      → get_elem? pss r ≡ some ps
      → (loc : IsLocal D r ps l) → In p (prepared D ps)
      → In (key, spaces) p.recv_halos
      → find (tagged p.id key.tag) (sent loc.0 key.rank key.id)
        ≡ some (tagged p.id key.tag, map (recast known.1) spaces)
  translated r l ps p key spaces known gp loc i j =
      let (x, (ds, a, b), found) =
        translate_all-Translated D p key spaces (prepared D ps) [] loc.0 loc.1 i j
          (All-of_In (λ y. Distinct (λ z. z.0.id) y.recv_halos) (prepared D ps)
            (λ y k. (All-In (IsPrepared (IsKnown D)) y (prepared D ps) (prepared_at r ps gp) k).0))
          (prepared-Distinct D once (gathered-IsKnown pss fresh) r ps (gathered_at pss r ps gp))
          (unfold lookup in refl) in
      let (c, d) = IsKnown-Resolves D key once known in
      let one = some-injective ds known.0 (sym a ∙ c) in
      let same = some-injective x known.1 (sym b ∙ ap (find_extents key.id) one ∙ d) in
      subst
        (λ y.
          find (tagged p.id key.tag) (sent loc.0 key.rank key.id)
          ≡ some (tagged p.id key.tag, map (recast y) spaces))
        same found

  -- What the pattern `p` of the rank `r` receives is sent, in terms of the patterns before the exchange.
  pub IsSent-before :
      (r : ℕ) (l : Local n) (ps : List (Pattern n × List (Box2 n))) (p : Pattern n)
      (key : ExtendedId) (spaces : List (Box2 n))
      → get_elem? ls r ≡ some l
      → get_elem? pss r ≡ some ps
      → IsLocal D r ps l
      → In p (prepared D ps)
      → In (key, spaces) p.recv_halos
      → IsSent final p.id key spaces
  IsSent-before r l ps p key spaces gl gp loc i j =
      let q = key.rank in
      let ms = maps pss fresh once ls all in
      let known =
        All-In (λ y. IsKnown D (untagged y.0)) (key, spaces) p.recv_halos
          (All-In (IsPrepared (IsKnown D)) p (prepared D ps) (prepared_at r ps gp) i).1 j in
      let found = translated r l ps p key spaces known gp loc i j in
      let (qs, t, s, gq, gt, tel, k, e) = pattern_of key known in
      let grown = grow (λ (v w : List (Box2 n)). v) (from (lookup ltb q tel.0)) in
      let kept = grow_all-frame q 0 ms (grown s) in
      let extents = ap (λ y. y.1) kept ∙ sym (ap (λ y. y.1) e) in
      (
        map (grow_all q 0 ms) t.patterns,
        grow_all q 0 ms (grown s),
        results_at ms 0 q q ls t gt (omega arith),
        In-map (grow_all q 0 ms) (grown s) t.patterns
            (subst (In (grown s)) (sym tel.3) (In-map grown s (prepared D qs) k)),
        ap (λ y. y.0) kept ∙ sym (ap (λ y. y.0) e),
        subst
            (λ y.
              find (tagged p.id key.tag) (grow_all q 0 ms (grown s)).send_halos
              ≡ some (tagged p.id key.tag, map (recast y) spaces))
            (sym extents)
            (found_after pss fresh once ls all (tagged p.id key.tag)
              (tagged p.id key.tag, map (recast known.1) spaces) r q s ps qs gp gq l t loc tel
              (In-map domain_of p (prepared D ps) i)
              (All-In (IsPrepared (IsKnown D)) s (prepared D qs) (prepared_at q qs gq) k).2
              (subst
                (λ y.
                  find (tagged p.id key.tag) (sent loc.0 q y)
                  ≡ some (tagged p.id key.tag, map (recast known.1) spaces))
                (ap (λ y. y.0.id) e) found)
              gl),
      )

  -- The same of the patterns after it.
  pub IsSent-after :
      (r : ℕ) (ps : List (Pattern n)) (p : Pattern n) (key : ExtendedId) (spaces : List (Box2 n))
      → get_elem? final r ≡ some ps
      → In p ps
      → In (key, spaces) p.recv_halos
      → IsSent final p.id key spaces
  IsSent-after r ps p key spaces g i j =
      let ms = maps pss fresh once ls all in
      let (l, gl, same) = results-get ms 0 r r ls ps g (omega arith) in
      let (y, k, e) = In-map_inv (grow_all r 0 ms) p l.patterns (subst (In p) same i) in
      let (qs, gp, loc) = local pss fresh once ls all r l gl in
      let grown = grow (λ (v w : List (Box2 n)). v) (from (lookup ltb r loc.0)) in
      let (z, m, d) = In-map_inv grown y (prepared D qs) (subst (In y) loc.3 k) in
      let kept = ap frame e ∙ grow_all-frame r 0 ms y ∙ ap frame d in
      subst (λ w. IsSent final w key spaces) (sym (ap (λ w. w.0) kept))
        (IsSent-before r l qs z key spaces gl gp loc m
          (subst (In (key, spaces)) (ap (λ w. w.2) kept) j))
