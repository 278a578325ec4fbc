-- ===== src/Structured/Pattern/Make/Sends.antt =====
-- include/ghex/structured/pattern.hpp: what `send_halos_map` holds after the translation of receive
-- halos.
use mathlib.Core.Logic.{◌≢◌}
use native.Mathlib.Decide.{ℕ_discrete}
use ghex.Base.{
  ℕ, ◌≡◌, ◌⊎◌, sym, ap, ◌∙◌, subst, List, [], ◌++◌, Option, none, some, ltb, inl, inr, Option-cases,
}
use ghex.Base.OrderedMap.{lookup, entry, lookup-upsert_self, lookup-upsert_ne}
use ghex.Base.NatMap.{ltb-StrictOrder}
use ghex.Base.Membership.{}
use ghex.Structured.Space.{Box2}
use ghex.Structured.Pattern.{}
use ghex.Structured.Pattern.Domains.{
  ExtendedId, less, Halos, DomainMap, RankMap, add_spaces, add_halo, add_send,
}
use ghex.Structured.Pattern.Make.Find.{
  find, Alike, Apart-of_ids, find-upsert-Alike, find-upsert-Apart,
}

-- What a lookup in a nested map gives, where `operator[]` makes an empty entry.
abbrev pub from : {A : Type 0} → Option (List A) → List A
from none = []
from (some l) = l

module _ {n : ℕ} where
  -- The send halos of a domain of a rank.
  abbrev pub entries : ℕ → DomainMap n → Halos n
  entries id d = from (lookup ltb id d)

  abbrev pub sent : RankMap n → ℕ → ℕ → Halos n
  sent m rank id = entries id (from (lookup ltb rank m))

  module _ (rank id : ℕ) (key : ExtendedId) (spaces : List (Box2 n)) where
    entries_self :
        (d : DomainMap n)
        → entries id (add_halo id key spaces d) ≡ add_spaces key spaces (entries id d)
    unfolding add_halo
    entries_self d = elim (Option-cases (lookup ltb id d)) [
      | inl e ↦ ap from (here ∙ ap step e) ∙ ap (λ o. add_spaces key spaces (from o)) (sym e)
      | inr (h, e) ↦ ap from (here ∙ ap step e) ∙ ap (λ o. add_spaces key spaces (from o)) (sym e)
    ]
      where
        step : Option (Halos n) → Option (Halos n)
        step = entry ltb (add_spaces key spaces []) (add_spaces key spaces)

        here : lookup ltb id (add_halo id key spaces d) ≡ step (lookup ltb id d)
        here =
            lookup-upsert_self ltb ltb-StrictOrder id (add_spaces key spaces [])
              (add_spaces key spaces) d

    from_self :
        (m : RankMap n)
        → from (lookup ltb rank (add_send rank id key spaces m))
          ≡ add_halo id key spaces (from (lookup ltb rank m))
    unfolding add_send
    from_self m = elim (Option-cases (lookup ltb rank m)) [
      | inl e ↦ ap from (here ∙ ap step e) ∙ ap (λ o. add_halo id key spaces (from o)) (sym e)
      | inr (h, e) ↦ ap from (here ∙ ap step e) ∙ ap (λ o. add_halo id key spaces (from o)) (sym e)
    ]
      where
        step : Option (DomainMap n) → Option (DomainMap n)
        step = entry ltb (add_halo id key spaces []) (add_halo id key spaces)

        here : lookup ltb rank (add_send rank id key spaces m) ≡ step (lookup ltb rank m)
        here =
            lookup-upsert_self ltb ltb-StrictOrder rank (add_halo id key spaces [])
              (add_halo id key spaces) m

    pub sent-add_send_self :
        (m : RankMap n)
        → sent (add_send rank id key spaces m) rank id ≡ add_spaces key spaces (sent m rank id)
    sent-add_send_self m = ap (entries id) (from_self m) ∙ entries_self (from (lookup ltb rank m))

    pub sent-add_send_rank :
        (m : RankMap n) (q e : ℕ) → q ≢ rank → sent (add_send rank id key spaces m) q e ≡ sent m q e
    unfolding add_send
    sent-add_send_rank m q e ne =
        ap (λ o. entries e (from o))
          (lookup-upsert_ne ltb ltb-StrictOrder rank q (add_halo id key spaces [])
            (add_halo id key spaces) m ne)

    pub sent-add_send_id :
        (m : RankMap n) (e : ℕ)
        → e ≢ id
        → sent (add_send rank id key spaces m) rank e ≡ sent m rank e
    unfolding add_halo
    sent-add_send_id m e ne =
        ap (entries e) (from_self m)
        ∙ ap from (
            lookup-upsert_ne ltb ltb-StrictOrder id e (add_spaces key spaces [])
              (add_spaces key spaces) (from (lookup ltb rank m)) ne)

    -- A new key of a domain is found with its spaces.
    pub find-add_send :
        (k : ExtendedId) (m : RankMap n)
        → Alike k key
        → find k (sent m rank id) ≡ none
        → find k (sent (add_send rank id key spaces m) rank id) ≡ some (key, spaces)
    unfolding add_spaces
    find-add_send k m a none_yet =
        ap (find k) (sent-add_send_self m)
        ∙ find-upsert-Alike key k spaces (λ v. v ++ spaces) (sent m rank id) a
        ∙ ap (entry less (key, spaces) (λ e. (e.0, e.1 ++ spaces))) none_yet

    -- What is found for another rank, another domain or another key stays.
    pub find-add_send_miss :
        (k : ExtendedId) (m : RankMap n) (q e : ℕ)
        → (q ≢ rank) ⊎ (e ≢ id) ⊎ (k.id ≢ key.id)
        → find k (sent (add_send rank id key spaces m) q e) ≡ find k (sent m q e)
    unfolding add_spaces
    find-add_send_miss k m q e (inl ne) = ap (find k) (sent-add_send_rank m q e ne)
    find-add_send_miss k m q e (inr other) = elim (ℕ_discrete q rank) [
      | no ne ↦ ap (find k) (sent-add_send_rank m q e ne)
      | yes same ↦
          subst (λ r. find k (sent (add_send rank id key spaces m) r e) ≡ find k (sent m r e))
            (sym same)
            (elim (ℕ_discrete e id) [
              | no ne ↦ ap (find k) (sent-add_send_id m e ne)
              | yes eq ↦
                  subst
                    (λ i.
                      find k (sent (add_send rank id key spaces m) rank i) ≡ find k (sent m rank i))
                    (sym eq)
                    (elim other [
                      | inl ne ↦ absurd (ne eq)
                      | inr ne ↦
                          ap (find k) (sent-add_send_self m)
                          ∙ find-upsert-Apart key k spaces (λ v. v ++ spaces) (sent m rank id)
                              (Apart-of_ids k key ne)
                    ])
            ])
    ]
