-- ===== src/Structured/Pattern/Exchange/RoundTrip.antt =====
-- include/ghex/structured/pattern.hpp: what a rank receives is what the other rank has for it.
use mathlib.Core.Option
use mathlib.Core.Path.{fun_ext}
use mathlib.Core.List.{append-nil, append_assoc}
use ghex.Base.{
  ℕ, ◌≡◌, refl, ap, ◌∙◌, subst, true, List, [], ◌∷◌, ◌++◌, Option, none, some, arith, if◌then◌else◌,
  ◌==◌, ◌>>=◌, length, length-map, map, Bool-cases, inl, inr,
}
use ghex.Base.OrderedMap.{upsert}
use ghex.Base.OrderedMap.Sorted.{}
use ghex.Base.NatMap.{}
use ghex.Structured.Space.{Box2}
use ghex.Structured.Pattern.Domains.{less, Halos, Pattern, DomainMap}
use ghex.Structured.Pattern.Exchange.{
  with_domain, Message, number, halo_messages, pair_messages, domain_messages, recv_number,
  recv_domain_ids, recv_numbers, recv_extended_ids, recv_spaces, recv_halos, recv_domains, receive,
}

-- The entries of a map inserted into another, where `f` makes one vector of two.
abbrev pub merge :
    {n : ℕ} → (List (Box2 n) → List (Box2 n) → List (Box2 n)) → Halos n → Halos n → Halos n
merge f [] send = send
merge f ((key, spaces) ∷ es) send = merge f es (upsert less key spaces (λ v. f v spaces) send)

abbrev pub append_all : {n : ℕ} → Halos n → Halos n → Halos n
append_all = merge ◌++◌

-- The send halos of the first pattern with a domain id changed.
abbrev pub update : {n : ℕ} → ℕ → (Halos n → Halos n) → List (Pattern n) → Option (List (Pattern n))
update id g [] = none
update id g (p ∷ ps) =
    let later = Option.map (λ rest. p ∷ rest) (update id g ps) in
    if p.id.id == id then some (record p { send_halos = g p.send_halos } ∷ ps) else later

abbrev pub merge_domains :
    {n : ℕ}
    → (List (Box2 n) → List (Box2 n) → List (Box2 n))
    → DomainMap n
    → List (Pattern n)
    → Option (List (Pattern n))
merge_domains f [] ps = some ps
merge_domains f ((id, es) ∷ m) ps = update id (merge f es) ps >>= merge_domains f m

abbrev pub append_domains : {n : ℕ} → DomainMap n → List (Pattern n) → Option (List (Pattern n))
append_domains = merge_domains ◌++◌

-- A result together with the messages that are left.
abbrev pub beside : {A B : Type 0} → B → Option A → Option (A × B)
beside b = Option.map (λ a. (a, b))

module _ {n : ℕ} {A : Type 0} where
  with_cons :
      (p : Pattern n) (a : A) (o : Option (List (Pattern n)))
      → (beside a o >>= λ rest. some (p ∷ rest.0, rest.1))
        ≡ beside a (Option.map (λ rest. p ∷ rest) o)
  with_cons p a none = refl
  with_cons p a (some qs) = refl

  pub with_domain-update :
      (id : ℕ) (g : Halos n → Halos n) (a : A) (ps : List (Pattern n))
      → with_domain id (λ send. some (g send, a)) ps ≡ beside a (update id g ps)
  unfolding with_domain
  with_domain-update id g a [] = refl
  with_domain-update id g a (p ∷ ps) = elim (Bool-cases (p.id.id == id)) [
    | inl e ↦ rw e refl
    | inr e ↦ rw (e, with_domain-update id g a ps) (with_cons p a (update id g ps))
  ]

same : (k : ℕ) → (k == k) ≡ true
same k = ground arith

same_length {ℓ κ} :
    {A : Type ℓ} {B : Type κ} (f : A → B) (xs : List A) → (length (map f xs) == length xs) ≡ true
same_length f xs = rw (length-map f xs) (same (length xs))

recv_halos-halo_messages :
    {n : ℕ} (es : Halos n) (rest : List (Message n)) (send : Halos n)
    → recv_halos (map (λ e. e.0) es) (halo_messages es ++ rest) send
      ≡ some (append_all es send, rest)
unfolding recv_halos halo_messages recv_number recv_spaces
recv_halos-halo_messages [] rest send = refl
recv_halos-halo_messages ((key, spaces) ∷ es) rest send =
    rw (same (length spaces))
      (recv_halos-halo_messages es rest (upsert less key spaces (λ v. v ++ spaces) send))

module _ {n : ℕ} where
  with_messages :
      (id : ℕ) (es : Halos n) (rest : List (Message n)) (ps : List (Pattern n))
      → with_domain id (recv_halos (map (λ e. e.0) es) (halo_messages es ++ rest)) ps
        ≡ beside rest (update id (append_all es) ps)
  with_messages id es rest ps =
      ap (λ f. with_domain id f ps) (fun_ext (λ send. recv_halos-halo_messages es rest send))
      ∙ with_domain-update id (append_all es) rest ps

  recv_domains-pair_messages :
      (m : DomainMap n) (rest : List (Message n)) (ps : List (Pattern n))
      → recv_domains (map (λ e. e.0) m) (map (λ e. length e.1) m) (pair_messages m ++ rest) ps
        ≡ beside rest (append_domains m ps)
  unfolding recv_domains pair_messages recv_extended_ids
  recv_domains-pair_messages [] rest ps = refl
  recv_domains-pair_messages ((id, es) ∷ m) rest ps =
      rw
        (
          same_length (λ e. e.0) es,
          append_assoc (halo_messages es) (pair_messages m) rest,
          with_messages id es (pair_messages m ++ rest) ps,
        )
        (step (recv_domains-pair_messages m rest) (update id (append_all es) ps))
    where
      step :
          ((qs : List (Pattern n))
            → recv_domains (map (λ e. e.0) m) (map (λ e. length e.1) m) (pair_messages m ++ rest) qs
              ≡ beside rest (append_domains m qs))
          → (o : Option (List (Pattern n)))
          → (beside (pair_messages m ++ rest) o >>= λ r.
              recv_domains (map (λ e. e.0) m) (map (λ e. length e.1) m) r.1 r.0)
            ≡ beside rest (o >>= append_domains m)
      step ih none = refl
      step ih (some qs) = ih qs

  -- What one rank sends for another is received whole.
  pub receive-domain_messages :
      (m : DomainMap n) (ps : List (Pattern n))
      → receive (number (length m) ∷ domain_messages m) ps ≡ beside [] (append_domains m ps)
  unfolding receive domain_messages recv_number recv_domain_ids recv_numbers
  receive-domain_messages m ps =
      rw (same_length (λ e. e.0) m, same_length (λ e. length e.1) m)
        (subst
          (λ xs.
            recv_domains (map (λ e. e.0) m) (map (λ e. length e.1) m) xs ps
            ≡ beside [] (append_domains m ps))
          (append-nil (pair_messages m)) (recv_domains-pair_messages m [] ps))
