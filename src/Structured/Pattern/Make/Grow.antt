-- ===== src/Structured/Pattern/Make/Grow.antt =====
-- include/ghex/structured/pattern.hpp: what the exchange adds to the patterns of a rank.
use mathlib.Core.Path.{fun_ext}
use mathlib.Core.List
use mathlib.Core.Logic.{◌≢◌}
use ghex.Base.{
  ℕ, ◌≡◌, ◌⊎◌, refl, sym, ap, ◌∙◌, subst, true, false, List, [], ◌∷◌, some, arith, ◌==◌, ltb,
  if◌then◌else◌, map, Bool-cases, inl, inr, All,
}
use ghex.Base.OrderedMap.{lookup}
use ghex.Base.OrderedMap.Sorted.{IsSorted}
use ghex.Base.NatMap.{}
use ghex.Base.Membership.{In, Distinct, NoRepeat, NoRepeat-map, Distinct-of_map}
use ghex.Structured.Space.{Box2}
use ghex.Structured.Pattern.Domains.{Halos, Pattern, DomainMap}
use ghex.Structured.Pattern.Exchange.{}
use ghex.Structured.Pattern.Exchange.RoundTrip.{merge, update, merge_domains}
use ghex.Structured.Pattern.Exchange.Channel.{at_head}
use ghex.Structured.Pattern.Make.Find.{}
use ghex.Structured.Pattern.Make.Sends.{entries}

abbrev pub domain_of : {n : ℕ} → Pattern n → ℕ
domain_of p = p.id.id

abbrev pub ids : {n : ℕ} → List (Pattern n) → List ℕ
ids = map domain_of

-- What keeps the ids of patterns keeps the list of them.
pub ids-map :
    {n : ℕ} (g : Pattern n → Pattern n) (ps : List (Pattern n))
    → ((p : Pattern n) → domain_of (g p) ≡ domain_of p)
    → ids (map g ps) ≡ ids ps
ids-map g [] h = refl
ids-map g (p ∷ ps) h = rw (h p) (ap (λ l. domain_of p ∷ l) (ids-map g ps h))

module _ {n : ℕ} where
  -- One pattern changed, and the others left alone.
  abbrev at_id : ℕ → (Halos n → Halos n) → Pattern n → Pattern n
  at_id id g p = if p.id.id == id then record p { send_halos = g p.send_halos } else p

  at_id_keeps :
      (id : ℕ) (g : Halos n → Halos n) (p : Pattern n) → domain_of (at_id id g p) ≡ domain_of p
  at_id_keeps id g p = elim (Bool-cases (p.id.id == id)) [ inl e ↦ rw e refl | inr e ↦ rw e refl ]

  at_id_others :
      (id : ℕ) (g : Halos n → Halos n) (ps : List (Pattern n))
      → All (λ p. id ≢ p.id.id) ps
      → map (at_id id g) ps ≡ ps
  at_id_others id g [] h = refl
  at_id_others id g (p ∷ ps) h =
      let e : (p.id.id == id) ≡ false = differs p.id.id id h.0 in
      rw e (ap (λ l. p ∷ l) (at_id_others id g ps h.1))
    where
      differs : (a b : ℕ) → b ≢ a → (a == b) ≡ false
      differs a b h = ground arith

  update-at_id :
      (id : ℕ) (g : Halos n → Halos n) (ps : List (Pattern n))
      → In id (ids ps)
      → Distinct domain_of ps
      → update id g ps ≡ some (map (at_id id g) ps)
  update-at_id id g [] i d = absurd i
  update-at_id id g (p ∷ ps) i d = elim (Bool-cases (p.id.id == id)) [
    | inl e ↦
        let eq : p.id.id ≡ id = equal p.id.id id e in
        rw e (
          ap (λ l. some (record p { send_halos = g p.send_halos } ∷ l))
            (sym (at_id_others id g ps (subst (λ k. All (λ q. k ≢ q.id.id) ps) eq d.0))))
    | inr e ↦
        rw (e, update-at_id id g ps (later id p.id.id (ids ps) i (differ p.id.id id e)) d.1) refl
  ]
    where
      equal : (a b : ℕ) → (a == b) ≡ true → a ≡ b
      equal a b h = ground arith

      differ : (a b : ℕ) → (a == b) ≡ false → b ≢ a
      differ a b h = ground arith

      later : (a b : ℕ) (l : List ℕ) → (a ≡ b) ⊎ In a l → a ≢ b → In a l
      later a b l (inl e) h = absurd (h e)
      later a b l (inr j) h = j

  module _ (f : List (Box2 n) → List (Box2 n) → List (Box2 n)) where
    -- The halos of a map for a pattern's domain, added to its send halos.
    abbrev pub grow : DomainMap n → Pattern n → Pattern n
    grow d p = record p { send_halos = merge f (entries p.id.id d) p.send_halos }

    grow-at_id :
        (id : ℕ) (es : Halos n) (d : DomainMap n) (p : Pattern n)
        → IsSorted ltb ((id, es) ∷ d)
        → grow d (at_id id (merge f es) p) ≡ grow ((id, es) ∷ d) p
    grow-at_id id es d p s = elim (at_head p.id.id id es d s) [
      | inl (ne, same) ↦ rw (ne_sym p.id.id id ne, same) refl
      | inr (eq, here, later) ↦ rw (eq_sym p.id.id id eq, here, later) refl
    ]
      where
        ne_sym : (a b : ℕ) → (b == a) ≡ false → (a == b) ≡ false
        ne_sym a b h = ground arith

        eq_sym : (a b : ℕ) → (b == a) ≡ true → (a == b) ≡ true
        eq_sym a b h = ground arith

    pub grow_nil : (p : Pattern n) → p ≡ grow [] p
    unfolding lookup
    grow_nil p = refl

    -- All patterns grow by what the map has for their domains, if every domain of the map is there.
    pub merge_domains-grow :
        (d : DomainMap n) (ps : List (Pattern n))
        → IsSorted ltb d
        → All (λ x. In x.0 (ids ps)) d
        → Distinct domain_of ps
        → merge_domains f d ps ≡ some (map (grow d) ps)
    merge_domains-grow [] ps s k dist =
        ap some (sym (List.map-id ps) ∙ ap (λ g. map g ps) (fun_ext grow_nil))
    merge_domains-grow ((id, es) ∷ d) ps s k dist =
        let same = ids-map (at_id id (merge f es)) ps (at_id_keeps id (merge f es)) in
        rw (update-at_id id (merge f es) ps k.0 dist) (
          merge_domains-grow d (map (at_id id (merge f es)) ps) s.1
            (subst (λ l. All (λ x. In x.0 l) d) (sym same) k.1)
            (Distinct-of_map domain_of (map (at_id id (merge f es)) ps)
              (subst NoRepeat (sym same) (NoRepeat-map domain_of ps dist)))
          ∙ ap some (
              List.map-map (grow d) (at_id id (merge f es)) ps
              ∙ ap (λ g. map g ps) (fun_ext (λ p. grow-at_id id es d p s))))
