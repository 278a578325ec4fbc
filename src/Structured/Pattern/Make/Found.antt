-- ===== src/Structured/Pattern/Make/Found.antt =====
-- include/ghex/structured/pattern.hpp: where a send halo comes from.
use mathlib.Core.Logic.{}
use mathlib.Core.Option.{}
use native.Mathlib.Decide.{ℕ_discrete}
use ghex.Base.{
  ℕ, ◌≡◌, ◌⊎◌, refl, sym, ap, ◌∙◌, subst, List, [], ◌∷◌, ◌++◌, some, map, Bool-cases, inl, inr,
  >>=-eq-some,
}
use mathlib.Core.Option.{some-injective}
use ghex.Base.OrderedMap.{lookup}
use ghex.Base.Membership.{In}
use ghex.Structured.Space.{Box2}
use ghex.Structured.Pattern.{recast}
use ghex.Structured.Pattern.Domains.{
  ExtendedId, less, Halos, Pattern, RankMap, add_spaces, add_send, translate, translate_all,
}
use ghex.Structured.Pattern.Make.Find.{find, Alike, Apart, less-WeakOrder, find-upsert-Apart}
use ghex.Structured.Pattern.Make.Sends.{
  sent, sent-add_send_self, sent-add_send_rank, sent-add_send_id,
}
use ghex.Structured.Pattern.Make.Translate.{added, translate_step}
use ghex.Structured.Pattern.Make.Rounds.{}
use ghex.Structured.Pattern.Make.Gain.{}

Alike-cases : (a b : ExtendedId) → Alike a b ⊎ Apart a b
Alike-cases a b = elim (Bool-cases (less a b)) [
  | inl e ↦ inr (inl e)
  | inr e ↦ elim (Bool-cases (less b a)) [ inl f ↦ inr (inr f) | inr f ↦ inl (e, f) ]
]

module _ {n : ℕ} where
  -- Alike keys find the same.
  pub find-Alike : (a b : ExtendedId) (h : Halos n) → Alike a b → find a h ≡ find b h
  unfolding lookup
  find-Alike a b [] s = refl
  find-Alike a b ((l, v) ∷ h) s =
      let (after, before) = less-WeakOrder.alike a b l s.0 s.1 in
      rw (before, after, find-Alike a b h s) refl

  -- The halo has been added for the key, or nothing has changed for it.
  find-add_send_cases :
      (rank id : ℕ) (key : ExtendedId) (spaces : List (Box2 n)) (k : ExtendedId) (m : RankMap n)
      (q e : ℕ)
      → ((rank ≡ q) × (id ≡ e) × Alike k key)
        ⊎ (find k (sent (add_send rank id key spaces m) q e) ≡ find k (sent m q e))
  find-add_send_cases rank id key spaces k m q e = elim (ℕ_discrete q rank) [
    | no ne ↦ inr (ap (find k) (sent-add_send_rank rank id key spaces m q e ne))
    | yes same ↦ elim (ℕ_discrete e id) [
      | no ne ↦ inr (
          subst (λ r. find k (sent (add_send rank id key spaces m) r e) ≡ find k (sent m r e))
            (sym same) (ap (find k) (sent-add_send_id rank id key spaces m e ne)))
      | yes eq ↦ elim (Alike-cases k key) [
        | inl a ↦ inl (sym same, sym eq, a)
        | inr a ↦ inr (
            subst
              (λ (r : ℕ). find k (sent (add_send rank id key spaces m) r e) ≡ find k (sent m r e))
              (sym same)
              (subst
                (λ (i : ℕ).
                  find k (sent (add_send rank id key spaces m) rank i) ≡ find k (sent m rank i))
                (sym eq) (unchanged a)))
      ]
    ]
  ]
    where
      unchanged :
          Apart k key
          → find k (sent (add_send rank id key spaces m) rank id) ≡ find k (sent m rank id)
      unchanged a =
          ap (find k) (sent-add_send_self rank id key spaces m)
          ∙ (unfold add_spaces in
              find-upsert-Apart key k spaces (λ v. v ++ spaces) (sent m rank id) a)

  -- A receive halo that the entry for the key comes from.
  abbrev pub ComesFrom : ExtendedId → ℕ → ℕ → ExtendedId → Halos n → Type 0
  ComesFrom k q e me halos =
      (key : ExtendedId) × (spaces : List (Box2 n)) × In (key, spaces) halos
      × (key.rank ≡ q)
      × (key.id ≡ e)
      × Alike k (record me { tag = key.tag })

  module _ (domains : List (List (ExtendedId × Box2 n))) (k : ExtendedId) (q e : ℕ)
      (x : ExtendedId × List (Box2 n)) where
    translate-ComesFrom :
        (me : ExtendedId) (halos : Halos n) (m m' : RankMap n)
        → translate domains me halos m ≡ some m'
        → find k (sent m' q e) ≡ some x
        → (find k (sent m q e) ≡ some x) ⊎ ComesFrom k q e me halos
    unfolding translate
    translate-ComesFrom me [] m m' h f =
        inl (subst (λ y. find k (sent y q e) ≡ some x) (sym (some-injective m m' h)) f)
    translate-ComesFrom me ((key, spaces) ∷ halos) m m' h f =
        let (y, r, rest) = translate_step domains me key spaces halos m m' h in
        elim (translate-ComesFrom me halos (added domains me key spaces y m) m' rest f) [
          | inr (l, v, i, a, b, c) ↦ inr (l, v, inr i, a, b, c)
          | inl g ↦
              elim (find-add_send_cases key.rank key.id (record me { tag = key.tag })
                (map (recast y) spaces) k m q e) [
                  | inl (a, b, c) ↦ inr (key, spaces, inl refl, a, b, c)
                  | inr same ↦ inl (sym same ∙ g)
                ]
        ]

    pub translate_all-ComesFrom :
        (ps : List (Pattern n)) (m m' : RankMap n)
        → translate_all domains ps m ≡ some m'
        → find k (sent m' q e) ≡ some x
        → (find k (sent m q e) ≡ some x)
          ⊎ ((p : Pattern n) × In p ps × ComesFrom k q e p.id p.recv_halos)
    unfolding translate_all
    translate_all-ComesFrom [] m m' h f =
        inl (subst (λ y. find k (sent y q e) ≡ some x) (sym (some-injective m m' h)) f)
    translate_all-ComesFrom (p ∷ ps) m m' h f =
        let (m1, first, rest) =
          >>=-eq-some (translate domains p.id p.recv_halos m) (translate_all domains ps) h in
        elim (translate_all-ComesFrom ps m1 m' rest f) [
          | inr (y, i, c) ↦ inr (y, inr i, c)
          | inl g ↦ elim (translate-ComesFrom p.id p.recv_halos m m1 first g) [
            | inl old ↦ inl old
            | inr c ↦ inr (p, inl refl, c)
          ]
        ]
