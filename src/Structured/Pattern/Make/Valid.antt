-- ===== src/Structured/Pattern/Make/Valid.antt =====
-- include/ghex/structured/pattern.hpp: the invariant of `send_halos_map`.
use mathlib.Core.Logic.{}
use mathlib.Core.Path.{}
use ghex.Base.{ℕ, sym, subst, List, [], ◌++◌, ltb, Option-cases, inl, inr, All}
use ghex.Base.OrderedMap.{lookup, upsert-AllValues}
use ghex.Base.OrderedMap.Sorted.{IsSorted, upsert-IsSorted, upsert-All, lookup-In}
use ghex.Base.NatMap.{ltb-StrictOrder, ltb-WeakOrder}
use ghex.Base.Membership.{In, All-In}
use ghex.Structured.Space.{Box2}
use ghex.Structured.Pattern.Domains.{
  ExtendedId, less, Halos, DomainMap, RankMap, add_spaces, add_halo, add_send,
}
use ghex.Structured.Pattern.Exchange.{}
use ghex.Structured.Pattern.Exchange.RoundTrip.{}
use ghex.Structured.Pattern.Exchange.Channel.{}
use ghex.Structured.Pattern.Make.Find.{less-WeakOrder}
use ghex.Structured.Pattern.Make.Sends.{from}
use ghex.Structured.Pattern.Make.Grow.{}
use ghex.Structured.Pattern.Make.Rounds.{DomainsSorted, AllSorted}
use ghex.Structured.Pattern.Make.World.{}

module _ {n : ℕ} (ids_at : ℕ → List ℕ) where
  -- The maps have their keys in order, and name existing domains only.
  abbrev DomainsExist : ℕ → DomainMap n → Type 0
  DomainsExist rank d = All (λ x. In x.0 (ids_at rank)) d

  abbrev pub IsValid : RankMap n → Type 0
  IsValid m = AllSorted m × All (λ x. DomainsExist x.0 x.1) m

  add_halo-DomainsSorted :
      (id : ℕ) (key : ExtendedId) (spaces : List (Box2 n)) (d : DomainMap n)
      → DomainsSorted d
      → DomainsSorted (add_halo id key spaces d)
  unfolding add_halo add_spaces
  add_halo-DomainsSorted id key spaces d s =
      let grown = λ (h : Halos n) (k : IsSorted less h).
        upsert-IsSorted less less-WeakOrder key spaces (λ v. v ++ spaces) h k in
      (
        upsert-IsSorted ltb ltb-WeakOrder id (add_spaces key spaces []) (add_spaces key spaces) d
            s.0,
        upsert-AllValues ltb (λ h. IsSorted less h) id (add_spaces key spaces [])
            (add_spaces key spaces) d (grown [] tt) grown s.1,
      )

  add_halo-DomainsExist :
      (rank id : ℕ) (key : ExtendedId) (spaces : List (Box2 n)) (d : DomainMap n)
      → In id (ids_at rank)
      → DomainsExist rank d
      → DomainsExist rank (add_halo id key spaces d)
  unfolding add_halo
  add_halo-DomainsExist rank id key spaces d i h =
      upsert-All ltb (λ x. In x.0 (ids_at rank)) id (add_spaces key spaces [])
        (add_spaces key spaces) d i (λ l v a b c. c) h

  pub add_send-IsValid :
      (rank id : ℕ) (key : ExtendedId) (spaces : List (Box2 n)) (m : RankMap n)
      → In id (ids_at rank)
      → IsValid m
      → IsValid (add_send rank id key spaces m)
  unfolding add_send
  add_send-IsValid rank id key spaces m i v =
      let new = add_halo id key spaces [] in
      let old = add_halo id key spaces in
      (
        (
          upsert-IsSorted ltb ltb-WeakOrder rank new old m v.0.0,
          upsert-AllValues ltb DomainsSorted rank new old m
              (add_halo-DomainsSorted id key spaces [] (tt, tt))
              (add_halo-DomainsSorted id key spaces) v.0.1,
        ),
        upsert-All ltb (λ x. DomainsExist x.0 x.1) rank new old m
            (add_halo-DomainsExist rank id key spaces [] i tt)
            (λ l d a b h.
              let e = ltb-StrictOrder.total l rank b a in
              subst (λ r. DomainsExist r d → DomainsExist r (old d)) (sym e)
                (add_halo-DomainsExist rank id key spaces d i) h)
            v.1,
      )

  -- What a valid map has for a rank is for domains of that rank.
  pub from-DomainsExist :
      (rank : ℕ) (m : RankMap n) → IsValid m → DomainsExist rank (from (lookup ltb rank m))
  from-DomainsExist rank m v = elim (Option-cases (lookup ltb rank m)) [
    | inl e ↦ rw e tt
    | inr (d, e) ↦ rw e (
        All-In (λ x. DomainsExist x.0 x.1) (rank, d) m v.1
          (lookup-In ltb ltb-StrictOrder rank d m e))
  ]
