-- ===== src/Structured/Pattern/Make/Converse.antt =====
-- include/ghex/structured/pattern.hpp: nothing is sent that is not received.
use mathlib.Core.List
use mathlib.Core.Logic.{◌≢◌}
use mathlib.Core.Option.{none-ne-some, some-injective}
use ghex.Base.{
  ℕ, suc, ◌+◌, ◌≡◌, ◌⊎◌, refl, sym, ap, ◌∙◌, subst, false, List, [], ◌∷◌, none, some, arith, ◌==◌,
  ltb, map, Bool-cases, Option-cases, inl, inr, All, get_elem?,
}
use ghex.Base.OrderedMap.{lookup}
use ghex.Base.Membership.{
  In, In-map, In-map_inv, Distinct, Distinct-of_map, Distinct-In, NoRepeat, NoRepeat-map, All-In,
  All-of_In,
}
use ghex.Structured.Space.{Box2}
use ghex.Structured.Pattern.{recast}
use ghex.Structured.Pattern.Domains.{ExtendedId, Pattern, RankMap}
use ghex.Structured.Pattern.Make.{Local}
use ghex.Structured.Pattern.Make.Find.{find, find-none, find-merge-Apart}
use ghex.Structured.Pattern.Make.Sends.{from, entries, sent}
use ghex.Structured.Pattern.Make.Keys.{untagged}
use ghex.Structured.Pattern.Make.Grow.{domain_of, ids-map, grow}
use ghex.Structured.Pattern.Make.Rounds.{
  AllSorted, sent-IsSorted, grow_from, grow_all, grow_all_skip, grow_all_turn,
}
use ghex.Structured.Pattern.Make.Gain.{find-grow_none}
use ghex.Structured.Pattern.Make.Prepared.{IsPrepared, prepared}
use ghex.Structured.Pattern.Make.Valid.{IsValid}
use ghex.Structured.Pattern.Make.World.{ids_by_rank, AllFresh, IsKnown, gathered, gathered-IsKnown}
use ghex.Structured.Pattern.Make.Locals.{ids_at, IsLocal, AllLocal}
use ghex.Structured.Pattern.Make.Results.{frame, grow_all-frame, results-get, results_at}
use ghex.Structured.Pattern.Make.Owners.{
  maps, local, local-ids, get_elem?-map_inv, All-maps-IsValid,
}
use ghex.Structured.Pattern.Make.Matched.{tagged, D, final, prepared_at, IsSent-before}
use ghex.Structured.Pattern.Make.Found.{find-Alike, ComesFrom, translate_all-ComesFrom}

-- What is found in a pattern's send halos after the exchange was there before, or another rank has it.
find-grow_all_cases :
    {n : ℕ} (me : ℕ) (k : ExtendedId) (x : ExtendedId × List (Box2 n)) (r : ℕ)
    (ms : List (RankMap n)) (p : Pattern n)
    → All AllSorted ms
    → find k (grow_all me r ms p).send_halos ≡ some x
    → (find k p.send_halos ≡ some x)
      ⊎ ((j : ℕ) × (m : RankMap n) × (y : ExtendedId × List (Box2 n)) × (get_elem? ms j ≡ some m)
          × (r + j ≢ me)
          × (find k (sent m me p.id.id) ≡ some y))
find-grow_all_cases me k x r [] p s f = inl f
find-grow_all_cases me k x r (m ∷ ms) p s f = elim (Bool-cases (r == me)) [
  | inl e ↦
      elim (find-grow_all_cases me k x (r + 1) ms p s.1
        (subst (λ z. find k z.send_halos ≡ some x) (grow_all_skip me r m ms p e) f)) [
          | inl g ↦ inl g
          | inr (j, l, y, a, ne, b) ↦ inr (suc j, l, y, a, shift j ne, b)
        ]
  | inr e ↦
      elim (find-grow_all_cases me k x (r + 1) ms (grow_from me m p) s.1
        (subst (λ z. find k z.send_halos ≡ some x) (grow_all_turn me r m ms p e) f)) [
          | inr (j, l, y, a, ne, b) ↦ inr (suc j, l, y, a, shift j ne, b)
          | inl g ↦ elim (Option-cases (find k (sent m me p.id.id))) [
            | inl none_there ↦ inl (sym (find-grow_none me k m p s.0 none_there) ∙ g)
            | inr (y, b) ↦ inr (0, m, y, refl, differ r me e, b)
          ]
        ]
]
  where
    shift : (j : ℕ) → (r + 1) + j ≢ me → r + suc j ≢ me
    shift j ne h = ne (omega arith)

    differ : (a b : ℕ) → (a == b) ≡ false → a + 0 ≢ b
    differ a b h e = absurd (ground arith)

-- The entry is for halos that a pattern receives from the pattern `s`.
abbrev pub IsReceived :
    {n : ℕ} → List (List (Pattern n)) → Pattern n → ExtendedId × List (Box2 n) → Type 0
IsReceived {n} made s x =
    (r : ℕ) × (ps : List (Pattern n)) × (p : Pattern n) × (key : ExtendedId) × (spaces : List
      (Box2 n))
    × (get_elem? made r ≡ some ps)
    × In p ps
    × In (key, spaces) p.recv_halos
    × (untagged key ≡ s.id)
    × (x ≡ (tagged p.id key.tag, map (recast s.extents) spaces))

module _ {n : ℕ} (pss : List (List (Pattern n × List (Box2 n)))) (fresh : AllFresh 0 pss)
    (once : NoRepeat (List.flat_map (λ x. x) (ids_by_rank (gathered pss)))) (ls : List (Local n))
    (all : AllLocal (gathered pss) once (gathered-IsKnown pss fresh) 0 pss ls) where
  abbrev dss : List (List (ExtendedId × Box2 n))
  dss = D pss fresh once ls all

  -- A rank whose patterns receive what is found for the key.
  abbrev Source : ExtendedId → ℕ → ℕ → Type 0
  Source k q e =
      (r : ℕ) × (l : Local n) × (ps : List (Pattern n × List (Box2 n))) × (get_elem? ls r ≡ some l)
      × (get_elem? pss r ≡ some ps)
      × IsLocal dss r ps l
      × ((p : Pattern n) × In p (prepared dss ps) × ComesFrom k q e p.id p.recv_halos)

  sent-Source :
      (k : ExtendedId) (q e r : ℕ) (l : Local n) (ps : List (Pattern n × List (Box2 n)))
      (x : ExtendedId × List (Box2 n))
      → get_elem? ls r ≡ some l
      → get_elem? pss r ≡ some ps
      → (loc : IsLocal dss r ps l) → find k (sent loc.0 q e) ≡ some x
      → Source k q e
  sent-Source k q e r l ps x gl gp loc f =
      elim (translate_all-ComesFrom dss k q e x (prepared dss ps) [] loc.0 loc.1 f) [
        | inl old ↦ absurd (none-ne-some x (sym nothing ∙ old))
        | inr c ↦ (r, l, ps, gl, gp, loc, c)
      ]
    where
      nothing : find k (sent {n = n} [] q e) ≡ none
      nothing = unfold lookup in refl

  -- A pattern is found after the exchange with what it receives.
  after :
      (r : ℕ) (l : Local n) (ps : List (Pattern n × List (Box2 n))) (p : Pattern n)
      → get_elem? ls r ≡ some l
      → IsLocal dss r ps l
      → In p (prepared dss ps)
      → (qs : List (Pattern n)) × (y : Pattern n) × (get_elem? (final pss fresh once ls all) r
          ≡ some qs)
        × In y qs
        × (frame y ≡ frame p)
  after r l ps p gl loc i =
      let ms = maps pss fresh once ls all in
      let grown = grow (λ (v w : List (Box2 n)). v) (from (lookup ltb r loc.0)) in
      (
        map (grow_all r 0 ms) l.patterns,
        grow_all r 0 ms (grown p),
        results_at ms 0 r r ls l gl (omega arith),
        In-map (grow_all r 0 ms) (grown p) l.patterns
            (subst (In (grown p)) (sym loc.3) (In-map grown p (prepared dss ps) i)),
        grow_all-frame r 0 ms (grown p),
      )

  IsReceived-Source :
      (k : ExtendedId) (q : ℕ) (qs : List (Pattern n)) (s : Pattern n)
      (x : ExtendedId × List (Box2 n))
      → get_elem? (final pss fresh once ls all) q ≡ some qs
      → Distinct domain_of qs
      → In s qs
      → find k s.send_halos ≡ some x
      → Source k q s.id.id
      → IsReceived (final pss fresh once ls all) s x
  IsReceived-Source k q qs s x g d i f (r, l, ps, gl, gp, loc, (p, m, (key, spaces, j, a, b, c))) =
      let (qs', s', g', i', same, f') =
        IsSent-before pss fresh once ls all r l ps p key spaces gl gp loc m j in
      let one =
        some-injective qs' qs (sym g' ∙ ap (get_elem? (final pss fresh once ls all)) a ∙ g) in
      let here =
        Distinct-In domain_of s' s qs d (subst (In s') one i') i (ap (λ y. y.id) same ∙ b) in
      let entry =
        subst
          (λ y.
            find (tagged p.id key.tag) y.send_halos
            ≡ some (tagged p.id key.tag, map (recast y.extents) spaces))
          here f' in
      let value =
        some-injective x (tagged p.id key.tag, map (recast s.extents) spaces)
          (sym f ∙ find-Alike k (tagged p.id key.tag) s.send_halos c ∙ entry) in
      let (ys, y, h, o, kept) = after r l ps p gl loc m in
      (
        r,
        ys,
        y,
        key,
        spaces,
        h,
        o,
        subst (In (key, spaces)) (sym (ap (λ w. w.2) kept)) j,
        sym same ∙ ap (λ w. w.id) here,
        subst (λ w. x ≡ (tagged w key.tag, map (recast s.extents) spaces))
            (sym (ap (λ w. w.0) kept)) value,
      )

  final-Distinct :
      (q : ℕ) (qs : List (Pattern n))
      → get_elem? (final pss fresh once ls all) q ≡ some qs
      → Distinct domain_of qs
  final-Distinct q qs g =
      let ms = maps pss fresh once ls all in
      let (l, gl, same) = results-get ms 0 q q ls qs g (omega arith) in
      let (ps, gp, loc) = local pss fresh once ls all q l gl in
      let kept =
        ids-map (grow_all q 0 ms) l.patterns (λ p. ap (λ w. w.0.id) (grow_all-frame q 0 ms p)) in
      subst (Distinct domain_of) (sym same) (
        Distinct-of_map domain_of (map (grow_all q 0 ms) l.patterns) (
          subst NoRepeat (sym kept)
            (NoRepeat-map domain_of l.patterns (local-ids pss fresh once ls all q ps l gp loc).1)))

  -- What a pattern sends before the rounds comes from its own rank.
  own-Source :
      (k : ExtendedId) (q : ℕ) (l : Local n) (ps : List (Pattern n × List (Box2 n))) (y : Pattern n)
      (x : ExtendedId × List (Box2 n))
      → get_elem? ls q ≡ some l
      → get_elem? pss q ≡ some ps
      → IsLocal dss q ps l
      → In y l.patterns
      → find k y.send_halos ≡ some x
      → Source k q y.id.id
  own-Source k q l ps y x gl gp loc i f =
      let keep = λ (v w : List (Box2 n)). v in
      let grown = grow keep (from (lookup ltb q loc.0)) in
      let (z, m, e) = In-map_inv grown y (prepared dss ps) (subst (In y) loc.3 i) in
      let there = sent loc.0 q z.id.id in
      let empty =
        (All-In (IsPrepared (IsKnown dss)) z (prepared dss ps)
          (prepared_at pss fresh once ls all q ps gp) m).2 in
      elim (Option-cases (find k there)) [
        | inl nothing ↦
            let same =
              find-merge-Apart keep k there z.send_halos
                (find-none k there (sent-IsSorted q z.id.id loc.0 loc.2.0) nothing) in
            absurd (
              none-ne-some x (
                sym (same ∙ ap (find k) empty ∙ no_halos)
                ∙ ap (λ w. find k w.send_halos) (sym e)
                ∙ f))
        | inr (v, h) ↦
            subst (Source k q) (ap domain_of (sym e)) (sent-Source k q z.id.id q l ps v gl gp loc h)
      ]
    where
      no_halos : find {n = n} k [] ≡ none
      no_halos = unfold lookup in refl

  -- What a map of another rank has for a pattern comes from that rank.
  other-Source :
      (k : ExtendedId) (q e j : ℕ) (m : RankMap n) (v : ExtendedId × List (Box2 n))
      → get_elem? (maps pss fresh once ls all) j ≡ some m
      → j ≢ q
      → find k (sent m q e) ≡ some v
      → Source k q e
  other-Source k q e j m v g ne f =
      let (l, gl, same) = get_elem?-map_inv ls j m g in
      let (ps, gp, loc) = local pss fresh once ls all j l gl in
      sent-Source k q e j l ps v gl gp loc (
        ap (λ d. find k (entries e (from d))) (sym (loc.5 q (λ h. ne (sym h))))
        ∙ ap (λ t. find k (sent t q e)) same
        ∙ f)

  Source-of_found :
      (k : ExtendedId) (q : ℕ) (qs : List (Pattern n)) (s : Pattern n)
      (x : ExtendedId × List (Box2 n))
      → get_elem? (final pss fresh once ls all) q ≡ some qs
      → In s qs
      → find k s.send_halos ≡ some x
      → Source k q s.id.id
  Source-of_found k q qs s x g i f =
      let ms = maps pss fresh once ls all in
      let (l, gl, same) = results-get ms 0 q q ls qs g (omega arith) in
      let (y, m, e) = In-map_inv (grow_all q 0 ms) s l.patterns (subst (In s) same i) in
      let (ps, gp, loc) = local pss fresh once ls all q l gl in
      let in_order = All-of_In AllSorted ms (λ t o.
        (All-In (IsValid (ids_at dss)) t ms (All-maps-IsValid pss fresh once ls all) o).0) in
      let id = ap domain_of e ∙ ap (λ w. w.0.id) (grow_all-frame q 0 ms y) in
      subst (Source k q) (sym id)
        (elim (find-grow_all_cases q k x 0 ms y in_order
          (subst (λ w. find k w.send_halos ≡ some x) e f)) [
            | inl h ↦ own-Source k q l ps y x gl gp loc m h
            | inr (j, t, v, gt, ne, h) ↦
                other-Source k q y.id.id j t v gt (λ w. ne (zero_add j ∙ w)) h
          ])
    where
      zero_add : (j : ℕ) → 0 + j ≡ j
      zero_add j = omega arith

  -- Every send halo of a pattern is for halos that another receives from it.
  pub final-IsReceived :
      (k : ExtendedId) (q : ℕ) (qs : List (Pattern n)) (s : Pattern n)
      (x : ExtendedId × List (Box2 n))
      → get_elem? (final pss fresh once ls all) q ≡ some qs
      → In s qs
      → find k s.send_halos ≡ some x
      → IsReceived (final pss fresh once ls all) s x
  final-IsReceived k q qs s x g i f =
      IsReceived-Source k q qs s x g (final-Distinct q qs g) i f (Source-of_found k q qs s x g i f)
