-- ===== src/Structured/Pattern/Make/Answer.antt =====
-- include/ghex/structured/pattern.hpp: what a rank has for another is found in that rank's patterns.
use mathlib.Core.List
use mathlib.Core.Logic.{}
use mathlib.Core.Option.{some-injective}
use native.Mathlib.Decide.{ℕ_discrete}
use ghex.Base.{
  ℕ, ◌≡◌, refl, sym, ap, ◌∙◌, subst, List, [], none, some, arith, ltb, All, get_elem?,
  get_elem?-map-some,
}
use ghex.Base.OrderedMap.{lookup}
use ghex.Base.Membership.{In, NoRepeat, All-In, All-of_In}
use mathlib.Core.Logic.{◌≢◌}
use ghex.Structured.Pattern.Domains.{RankMap}
use ghex.Structured.Space.{Box2}
use ghex.Structured.Pattern.{}
use ghex.Structured.Pattern.Domains.{less, ExtendedId, Pattern, translate_all}
use ghex.Structured.Pattern.Make.{Local}
use ghex.Base.OrderedMap.Sorted.{IsSorted}
use ghex.Structured.Pattern.Make.Find.{find, find-none, find-merge-Apart, find-merge_new}
use ghex.Structured.Pattern.Make.Sends.{from, entries, sent}
use ghex.Structured.Pattern.Make.Translate.{}
use ghex.Structured.Pattern.Make.Keys.{}
use ghex.Structured.Pattern.Make.Grow.{ids, grow}
use ghex.Structured.Pattern.Make.Rounds.{AllSorted, sent-IsSorted, grow_all}
use ghex.Structured.Pattern.Make.Valid.{IsValid}
use ghex.Structured.Pattern.Make.Gain.{find-grow_all-Silent, find-grow_all}
use ghex.Structured.Pattern.Make.Prepared.{prepared}
use ghex.Structured.Pattern.Make.World.{ids_by_rank, AllFresh, gathered, gathered-IsKnown}
use ghex.Structured.Pattern.Make.SetUp.{}
use ghex.Structured.Pattern.Make.Locals.{ids_at, IsLocal, AllLocal}
use ghex.Structured.Pattern.Make.Results.{Silent-of_places, SilentBut-of_places}
use ghex.Structured.Pattern.Make.Owners.{
  maps, local_ids, sent-foreign, map-foreign, All-maps-IsValid,
}

module _ {n : ℕ} (pss : List (List (Pattern n × List (Box2 n)))) (fresh : AllFresh 0 pss)
    (once : NoRepeat (List.flat_map (λ x. x) (ids_by_rank (gathered pss)))) (ls : List (Local n))
    (all : AllLocal (gathered pss) once (gathered-IsKnown pss fresh) 0 pss ls) where
  abbrev D : List (List (ExtendedId × Box2 n))
  D = gathered pss

  abbrev ms : List (RankMap n)
  ms = maps pss fresh once ls all

  in_order : All AllSorted ms
  in_order =
      All-of_In AllSorted ms
        (λ m i. (All-In (IsValid (ids_at D)) m ms (All-maps-IsValid pss fresh once ls all) i).0)

  -- The rank `r` has `x` for the pattern `s` of the rank `q`, which has no send halos yet.
  module _ (k : ExtendedId) (x : ExtendedId × List (Box2 n)) (r q : ℕ) (s : Pattern n)
      (ps qs : List (Pattern n × List (Box2 n))) (gp : get_elem? pss r ≡ some ps)
      (gq : get_elem? pss q ≡ some qs) (l t : Local n) (loc : IsLocal D r ps l)
      (tel : IsLocal D q qs t) (mine : In k.id (ids (prepared D ps))) (empty : s.send_halos ≡ [])
      (found : find k (sent loc.0 q s.id.id) ≡ some x) where
    abbrev keep : List (Box2 n) → List (Box2 n) → List (Box2 n)
    keep v w = v

    -- The pattern with its rank's own send halos.
    abbrev s1 : Pattern n
    s1 = grow keep (from (lookup ltb q tel.0)) s

    nothing : find k s.send_halos ≡ none
    nothing = subst (λ h. find k h ≡ none) (sym empty) (unfold lookup in refl)

    sorted : IsSorted less (sent tel.0 q s.id.id)
    sorted = sent-IsSorted q s.id.id tel.0 tel.2.0

    -- No map but that of the rank `r` has anything for the key.
    others :
        (j : ℕ) (m : RankMap n)
        → get_elem? ms j ≡ some m
        → j ≢ r
        → j ≢ q
        → find k (sent m q s.id.id) ≡ none
    others j m =
        map-foreign pss fresh once ls all k r (ids (prepared D ps))
          (local_ids pss fresh once ls all r ps gp) mine j q s.id.id m

    found_here : q ≡ r → find k (grow_all q 0 ms s1).send_halos ≡ some x
    found_here e =
        let same : qs ≡ ps = some-injective qs ps (sym gq ∙ ap (get_elem? pss) e ∙ gp) in
        let one : tel.0 ≡ loc.0 =
          some-injective tel.0 loc.0
            (sym tel.1 ∙ ap (λ y. translate_all D (prepared D y) []) same ∙ loc.1) in
        find-grow_all-Silent q k 0 ms s1 in_order (
          Silent-of_places q s.id.id k 0 ms
            (λ j m g ne. others j m g (λ h. ne (omega (arith, h, e))) (λ h. ne (omega (arith, h)))))
        ∙ find-merge_new keep k (sent tel.0 q s.id.id) s.send_halos x sorted
            (subst (λ m. find k (sent m q s.id.id) ≡ some x) (sym one) found) nothing

    found_there : get_elem? ls r ≡ some l → q ≢ r → find k (grow_all q 0 ms s1).send_halos ≡ some x
    found_there gl ne =
        let before =
          find-merge-Apart keep k (sent tel.0 q s.id.id) s.send_halos (
            find-none k (sent tel.0 q s.id.id) sorted (
              sent-foreign pss fresh once ls all k r (ids (prepared D ps))
                (local_ids pss fresh once ls all r ps gp) mine q q s.id.id qs t gq ne tel))
          ∙ nothing in
        find-grow_all q k r 0 ms s1 l.send_halos_map x in_order
          (get_elem?-map-some (λ (y : Local n). y.send_halos_map) ls r l gl)
          (λ h. ne (omega (arith, h)))
          (SilentBut-of_places q s.id.id k r 0 ms
            (λ j m g d nq. others j m g d (λ h. nq (omega (arith, h)))))
          (ap (λ d. find k (entries s.id.id (from d))) (loc.5 q ne) ∙ found) before

    -- The rank `q` sends what the rank `r` has told it of the key.
    pub found_after : get_elem? ls r ≡ some l → find k (grow_all q 0 ms s1).send_halos ≡ some x
    found_after gl = elim (ℕ_discrete q r) [ yes e ↦ found_here e | no ne ↦ found_there gl ne ]
