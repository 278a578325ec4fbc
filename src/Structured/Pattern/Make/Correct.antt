-- ===== src/Structured/Pattern/Make/Correct.antt =====
-- include/ghex/structured/pattern.hpp: `make_pattern_impl` over all ranks ends with patterns whose
-- send halos and receive halos fit.
use mathlib.Core.List
use mathlib.Core.Option.{some-injective}
use ghex.Base.{
  ◌≤◌, ◌<◌, length, >>=-eq-some, ℕ, ◌≡◌, refl, sym, ap, ◌∙◌, subst, List, some, All, get_elem?,
  arith,
}
use ghex.Base.Membership.{In, NoRepeat}
use ghex.Structured.Space.{Box2}
use ghex.Structured.Pattern.Domains.{ExtendedId, Pattern, domains_of}
use ghex.Structured.Pattern.Make.{
  Local, Rank, set_up, set_globals, make_locals, max_tags, make_pattern,
}
use ghex.Structured.Pattern.Make.World.{AllFresh, gathered, gathered-IsKnown, ids_by_rank}
use ghex.Structured.Pattern.Make.SetUp.{IsUsable, all_ids, set_up_total}
use ghex.Structured.Pattern.Make.Locals.{AllLocal, make_locals_total}
use ghex.Structured.Pattern.Make.Globals.{
  set_globals-IsKept, set_globals_total, patterns_of_domains,
}
use ghex.Structured.Pattern.Make.Results.{results, connect_ranks-results}
use ghex.Structured.Pattern.Make.Owners.{gathered_at, maps, all_ready}
use ghex.Structured.Pattern.Make.Find.{find}
use ghex.Structured.Pattern.Make.Converse.{IsReceived, final-IsReceived}
use ghex.Structured.Pattern.Make.Tags.{recv_tags, final-tags}
use ghex.Structured.Pattern.Make.Matched.{IsSent, IsSent-after}

-- What the ranks' domains are asked for: no domain is empty, no conversion of halos throws, and no
-- two domains have the same id.
pub record IsWellFormed {n : ℕ} (ranks : List (Rank n)) : Type 0 where
  pub usable : All (λ x. All IsUsable x.domains) ranks
  pub once : NoRepeat (List.flat_map (λ x. x) (all_ids ranks))

module _ {n : ℕ} (ranks : List (Rank n)) (h : IsWellFormed ranks) where
  -- What every rank has computed before the exchange, with the result.
  abbrev IsMade : List (List (Pattern n)) → ℕ → Type 0
  IsMade final t =
      (pss : List (List (Pattern n × List (Box2 n)))) × (fresh : AllFresh 0 pss) × (once : NoRepeat
        (List.flat_map (λ x. x) (ids_by_rank (gathered pss))))
      × (ls : List (Local n)) × (all : AllLocal (gathered pss) once (gathered-IsKnown pss fresh) 0
          pss ls)
      × (final ≡ results (maps pss fresh once ls all) 0 ls)
      × (t ≡ max_tags 0 ls)

  -- What follows once the global extents are found.
  set_globals-IsMade :
      (pss qss : List (List (Pattern n × List (Box2 n))))
      → set_up 0 ranks ≡ some pss
      → set_globals (gathered pss) pss ≡ some qss
      → AllFresh 0 pss
      → ids_by_rank (gathered pss) ≡ all_ids ranks
      → (final : List (List (Pattern n))) × (t : ℕ) × (make_pattern ranks ≡ some (final, t))
        × IsMade final t
  unfolding make_pattern
  set_globals-IsMade pss qss a found set same =
      let (fresh, kept) = set_globals-IsKept (gathered pss) 0 pss qss found set in
      let once =
        subst (λ l. NoRepeat (List.flat_map (λ x. x) l)) (sym (ap ids_by_rank kept ∙ same))
          h.once in
      let (ls, b, all) =
        make_locals_total (gathered qss) once (gathered-IsKnown qss fresh) 0 qss
          (λ j ps g.
            subst (λ k. get_elem? (gathered qss) k ≡ some (domains_of ps)) (omega arith)
              (gathered_at qss j ps g))
          fresh in
      let b' = subst (λ d. make_locals d 0 qss ≡ some ls) kept b in
      let final = results (maps qss fresh once ls all) 0 ls in
      let c =
        connect_ranks-results (maps qss fresh once ls all) 0 ls (all_ready qss fresh once ls all) in
      (final, max_tags 0 ls, rw (a, found, b', c) refl, (qss, fresh, once, ls, all, refl, refl))

  make_pattern-IsMade :
      (made : List (List (Pattern n))) (t : ℕ)
      → make_pattern ranks ≡ some (made, t)
      → (final : List (List (Pattern n))) × (u : ℕ) × (make_pattern ranks ≡ some (final, u))
        × IsMade final u
  unfolding make_pattern
  make_pattern-IsMade made t e =
      let (pss, a, fresh, same) = set_up_total 0 ranks h.usable in
      let (qs, b, rest) = >>=-eq-some (set_up 0 ranks) _ e in
      let (qss, found, more) = >>=-eq-some (set_globals (gathered qs) qs) _ rest in
      let one = some-injective qs pss (sym b ∙ a) in
      set_globals-IsMade pss qss a (subst (λ l. set_globals (gathered l) l ≡ some qss) one found)
        fresh same

  -- For ranks of which each has a domain, none of whose domains is empty or has halos that cannot be
  -- converted, and no two of whose domains have one id: the patterns are made, every access is within
  -- its vector, every search for a domain finds it, and every receive meets the message that it asks
  -- for.
  pub make_pattern_total :
      All (λ x. 0 < length x.domains) ranks
      → (final : List (List (Pattern n))) × (t : ℕ) × (make_pattern ranks ≡ some (final, t))
  make_pattern_total inhabited =
      let (pss, a, fresh, same) = set_up_total 0 ranks h.usable in
      let (qss, found) =
        set_globals_total (gathered pss) pss (patterns_of_domains pss ranks same inhabited) in
      let (final, t, e, made) = set_globals-IsMade pss qss a found fresh same in (final, t, e)

  -- For ranks none of whose domains is empty or has halos that cannot be converted, and no two of
  -- whose domains have one id, in the patterns that are made: the halos that a pattern receives
  -- under a key are sent to it, under the tag of the key, by the pattern of the domain that the key
  -- names, at the rank that the key names; they are the same in number and order and on their
  -- global side, and their local side is in that domain's coordinates.
  pub make_pattern-IsSent :
      (final : List (List (Pattern n))) (t r : ℕ) (ps : List (Pattern n)) (p : Pattern n)
      (key : ExtendedId) (spaces : List (Box2 n))
      → make_pattern ranks ≡ some (final, t)
      → get_elem? final r ≡ some ps
      → In p ps
      → In (key, spaces) p.recv_halos
      → IsSent final p.id key spaces
  make_pattern-IsSent final t r ps p key spaces made g i j =
      let (f, u, e, (pss, fresh, once, ls, all, a, b)) = make_pattern-IsMade final t made in
      let same = ap (λ x. x.0) (some-injective (f, u) (final, t) (sym e ∙ made)) in
      subst (λ x. IsSent x p.id key spaces) (sym a ∙ same)
        (IsSent-after pss fresh once ls all r ps p key spaces
          (subst (λ x. get_elem? x r ≡ some ps) (sym (sym a ∙ same)) g) i j)

  -- For ranks none of whose domains is empty or has halos that cannot be converted, and no two of
  -- whose domains have one id, in the patterns that are made: whatever a pattern sends under a key,
  -- a pattern receives from it, at that pattern's rank and under the tag of the key; the halos are
  -- the same in number and order and on their global side, and the key has that pattern's id with
  -- the tag.
  pub make_pattern-IsReceived :
      (made : List (List (Pattern n))) (t q : ℕ) (qs : List (Pattern n)) (s : Pattern n)
      (k : ExtendedId) (x : ExtendedId × List (Box2 n))
      → make_pattern ranks ≡ some (made, t)
      → get_elem? made q ≡ some qs
      → In s qs
      → find k s.send_halos ≡ some x
      → IsReceived made s x
  make_pattern-IsReceived made t q qs s k x e g i f =
      let (final, u, d, (pss, fresh, once, ls, all, a, b)) = make_pattern-IsMade made t e in
      let same = ap (λ y. y.0) (some-injective (final, u) (made, t) (sym d ∙ e)) in
      subst (λ y. IsReceived y s x) (sym a ∙ same)
        (final-IsReceived pss fresh once ls all k q qs s x
          (subst (λ y. get_elem? y q ≡ some qs) (sym (sym a ∙ same)) g) i f)

  -- For ranks none of whose domains is empty or has halos that cannot be converted, and no two of
  -- whose domains have one id, in the patterns that are made: of the halos that the patterns of a
  -- rank receive, no two from one rank have the same tag, and no tag exceeds the maximum tag that
  -- is returned.
  pub make_pattern-recv_tags :
      (made : List (List (Pattern n))) (max_tag q : ℕ) (qs : List (Pattern n)) (i j r t : ℕ)
      → make_pattern ranks ≡ some (made, max_tag)
      → get_elem? made q ≡ some qs
      → get_elem? (recv_tags qs) i ≡ some (r, t)
      → get_elem? (recv_tags qs) j ≡ some (r, t)
      → (i ≡ j) × (t ≤ max_tag)
  make_pattern-recv_tags made max_tag q qs i j r t e g f h =
      let (final, u, d, (pss, fresh, once, ls, all, a, b)) = make_pattern-IsMade made max_tag e in
      let one = some-injective (final, u) (made, max_tag) (sym d ∙ e) in
      let same = sym a ∙ ap (λ y. y.0) one in
      let result =
        final-tags pss fresh once ls all q qs i j r t
          (subst (λ y. get_elem? y q ≡ some qs) (sym same) g) f h in
      (result.0, subst (λ m. t ≤ m) (sym b ∙ ap (λ y. y.1) one) result.1)
