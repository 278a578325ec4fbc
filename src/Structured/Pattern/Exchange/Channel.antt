-- ===== src/Structured/Pattern/Exchange/Channel.antt =====
-- include/ghex/structured/pattern.hpp: the messages for one rank among all that a rank sends.
use mathlib.Core.List.{append-nil}
use ghex.Base.{
  ℕ, suc, ◌≡◌, ◌⊎◌, refl, sym, ap, ap₂, ◌∙◌, subst, Bool, true, false, List, [], ◌∷◌, ◌++◌, Option,
  none, some, arith, ◌==◌, ltb, length, map, Bool-cases, Option-cases, inl, inr,
}
use ghex.Base.OrderedMap.{lookup}
use ghex.Base.OrderedMap.Sorted.{IsSorted, After, After-trans, lookup-After}
use ghex.Base.NatMap.{ltb-WeakOrder}
use ghex.Structured.Pattern.Domains.{Pattern, DomainMap, RankMap}
use ghex.Structured.Pattern.Exchange.{
  Message, number, domain_messages, count_sends, domain_sends, sends, channel, is_sending, connect,
}
use ghex.Structured.Pattern.Exchange.RoundTrip.{beside, append_domains, receive-domain_messages}

-- The first entry of a map is for the rank, or the rank's entry is among the others.
pub at_head :
    {V : Type 0} (me r : ℕ) (d : V) (m : List (ℕ × V))
    → IsSorted ltb ((r, d) ∷ m)
    → (((r == me) ≡ false) × (lookup ltb me ((r, d) ∷ m) ≡ lookup ltb me m))
      ⊎ (((r == me) ≡ true) × (lookup ltb me ((r, d) ∷ m) ≡ some d) × (lookup ltb me m ≡ none))
unfolding lookup
at_head me r d m h = elim (Bool-cases (ltb me r)) [
  | inl a ↦ inl (
    ground arith,
    rw (a, lookup-After ltb ltb-WeakOrder me m (After-trans ltb ltb-WeakOrder me r m a h.0)) refl,
  )
  | inr a ↦ elim (Bool-cases (ltb r me)) [
    | inl b ↦ inl (ground arith, rw (a, b) refl)
    | inr b ↦
        let e : r ≡ me = ground arith in
        inr (
          ground arith,
          rw (a, b) refl,
          lookup-After ltb ltb-WeakOrder me m (subst (λ k. After ltb k m) e h.0),
        )
  ]
]

-- What the rank does with the map of another rank, all messages of it included.
abbrev pub append_entry :
    {n : ℕ} → Option (DomainMap n) → List (Pattern n) → Option (List (Pattern n))
append_entry none ps = some ps
append_entry (some d) ps = append_domains d ps

nonzero : (k : ℕ) → (suc k == 0) ≡ false
nonzero k = ground arith

module _ {n : ℕ} (me : ℕ) where
  channel-append :
      (xs ys : List (ℕ × Message n)) → channel me (xs ++ ys) ≡ channel me xs ++ channel me ys
  unfolding channel
  channel-append [] ys = refl
  channel-append ((r, x) ∷ xs) ys = elim (Bool-cases (r == me)) [
    | inl e ↦ rw e (ap (λ l. x ∷ l) (channel-append xs ys))
    | inr e ↦ rw e (channel-append xs ys)
  ]

  channel_self :
      (r : ℕ) (l : List (Message n)) → (r == me) ≡ true → channel me (map (λ x. (r, x)) l) ≡ l
  unfolding channel
  channel_self r [] h = refl
  channel_self r (x ∷ l) h = rw h (ap (λ t. x ∷ t) (channel_self r l h))

  channel_other :
      (r : ℕ) (l : List (Message n)) → (r == me) ≡ false → channel me (map (λ x. (r, x)) l) ≡ []
  unfolding channel
  channel_other r [] h = refl
  channel_other r (x ∷ l) h = rw h (channel_other r l h)

  -- What reaches the rank: nothing if the map has no entry for it.
  abbrev counts_of : Option (DomainMap n) → List (Message n)
  counts_of none = []
  counts_of (some d) = number (length d) ∷ []

  abbrev domains_for : Option (DomainMap n) → List (Message n)
  domains_for none = []
  domains_for (some d) = domain_messages d

  abbrev found : Option (DomainMap n) → Bool
  found none = false
  found (some d) = true

  channel-count_sends :
      (m : RankMap n) → IsSorted ltb m → channel me (count_sends m) ≡ counts_of (lookup ltb me m)
  unfolding channel count_sends
  channel-count_sends [] h = ap counts_of (sym (lookup-After ltb ltb-WeakOrder me [] tt))
  channel-count_sends ((r, d) ∷ m) h = elim (at_head me r d m h) [
    | inl (ne, same) ↦ rw (ne, same) (channel-count_sends m h.1)
    | inr (eq, here, later) ↦
        rw (eq, here)
          (ap (λ l. number (length d) ∷ l) (channel-count_sends m h.1 ∙ ap counts_of later))
  ]

  domain_sends-nil : channel me (domain_sends {n = n} []) ≡ []
  unfolding channel domain_sends
  domain_sends-nil = refl

  domain_sends-cons :
      (r : ℕ) (d : DomainMap n) (m : RankMap n)
      → channel me (domain_sends ((r, d) ∷ m))
        ≡ channel me (map (λ x. (r, x)) (domain_messages d)) ++ channel me (domain_sends m)
  unfolding domain_sends
  domain_sends-cons r d m = channel-append (map (λ x. (r, x)) (domain_messages d)) (domain_sends m)

  channel-domain_sends :
      (m : RankMap n) → IsSorted ltb m → channel me (domain_sends m) ≡ domains_for (lookup ltb me m)
  channel-domain_sends [] h =
      domain_sends-nil ∙ ap domains_for (sym (lookup-After ltb ltb-WeakOrder me [] tt))
  channel-domain_sends ((r, d) ∷ m) h = domain_sends-cons r d m ∙ elim (at_head me r d m h) [
    | inl (ne, same) ↦
        rw (channel_other r (domain_messages d) ne, same) (channel-domain_sends m h.1)
    | inr (eq, here, later) ↦
        ap₂ ◌++◌ (channel_self r (domain_messages d) eq)
          (channel-domain_sends m h.1 ∙ ap domains_for later)
        ∙ append-nil (domain_messages d)
        ∙ ap domains_for (sym here)
  ]

  is_sending-lookup :
      (m : RankMap n) → IsSorted ltb m → is_sending me (map (λ e. e.0) m) ≡ found (lookup ltb me m)
  unfolding is_sending
  is_sending-lookup [] h = ap found (sym (lookup-After ltb ltb-WeakOrder me [] tt))
  is_sending-lookup ((r, d) ∷ m) h = elim (at_head me r d m h) [
    | inl (ne, same) ↦ rw (ne, same) (is_sending-lookup m h.1)
    | inr (eq, here, later) ↦ rw (eq, here) refl
  ]

  channel-sends :
      (m : RankMap n) (d : DomainMap n)
      → IsSorted ltb m
      → lookup ltb me m ≡ some d
      → channel me (sends m) ≡ number (length d) ∷ domain_messages d
  unfolding sends
  channel-sends m d h e =
      channel-append (count_sends m) (domain_sends m)
      ∙ ap₂ ◌++◌ (channel-count_sends m h ∙ ap counts_of e)
          (channel-domain_sends m h ∙ ap domains_for e)

  -- One round of the loop over all ranks, for a map of send halos with its keys in order: a rank adds
  -- the entries that the map has for its domains, each at the end of what is there, it adds none if
  -- the map has no entry for the rank, and no message is left over.
  pub connect-append_entry :
      (m : RankMap n) (ps : List (Pattern n))
      → IsSorted ltb m
      → connect me m ps ≡ beside [] (append_entry (lookup ltb me m) ps)
  unfolding connect
  connect-append_entry [] ps h = rw (lookup-After {V = DomainMap n} ltb ltb-WeakOrder me [] tt) refl
  connect-append_entry ((r, d) ∷ m) ps h = elim (Option-cases (lookup ltb me ((r, d) ∷ m))) [
    | inl e ↦ rw (nonzero (length m), is_sending-lookup ((r, d) ∷ m) h, e) refl
    | inr (own, e) ↦
        rw
          (
            nonzero (length m),
            is_sending-lookup ((r, d) ∷ m) h,
            e,
            channel-sends ((r, d) ∷ m) own h e,
          )
          (receive-domain_messages own ps)
  ]
