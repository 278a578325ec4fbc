-- ===== src/Structured/Pattern/Exchange.antt =====
-- include/ghex/structured/pattern.hpp: how the ranks tell one another their send halos in
-- `make_pattern_impl`, and the whole of that function over all ranks. The messages from one rank to
-- another all have the same tag and arrive in the order in which they are sent.
pub mod RoundTrip
pub mod Channel
use mathlib.Core.Option
use ghex.Base.{
  ℕ, zero, ◌+◌, Bool, true, false, List, [], ◌∷◌, ◌++◌, Option, none, some, if◌then◌else◌, ◌==◌,
  ltb, ◌>>=◌, length, map,
}
use ghex.Base.OrderedMap.{lookup, upsert}
use ghex.Structured.Space.{Box2}
use ghex.Structured.Pattern.{TagState}
use ghex.Structured.Pattern.Domains.{
  ExtendedId, less, Halos, Pattern, Generated, DomainMap, RankMap, make_patterns, domains_of,
  receive_all, set_all_tags, translate_all,
}

-- The search for the pattern of a domain, and a change of it; past the end is undefined.
unfoldable pub with_domain :
    {n : ℕ} {A : Type 0}
    → ℕ
    → (Halos n → Option (Halos n × A))
    → List (Pattern n)
    → Option (List (Pattern n) × A)
with_domain id f [] = none
with_domain id f (p ∷ ps) =
    let later = (do rest ← with_domain id f ps; some (p ∷ rest.0, rest.1)) in
    let here = (do r ← f p.send_halos; some (record p { send_halos = r.0 } ∷ ps, r.1)) in
    if p.id.id == id then here else later

-- `insert` for each entry: one that is there stays.
unfoldable pub insert_all : {n : ℕ} → Halos n → Halos n → Halos n
unfolding upsert less
insert_all [] send = send
insert_all ((key, spaces) ∷ es) send = insert_all es (upsert less key spaces (λ v. v) send)

-- The send halos of a rank for its own domains.
unfoldable pub add_own : {n : ℕ} → DomainMap n → List (Pattern n) → Option (List (Pattern n))
unfolding with_domain insert_all
add_own [] ps = some ps
add_own ((id, es) ∷ m) ps = do
  r ← with_domain id (λ send. some (insert_all es send, zero)) ps
  add_own m r.0

-- `erase` at the position that `find` has found.
unfoldable pub erase : {n : ℕ} → ℕ → RankMap n → RankMap n
erase rank [] = []
erase rank ((r, d) ∷ m) = let rest = erase rank m in if r == rank then m else (r, d) ∷ rest

unfoldable pub keep_own :
    {n : ℕ} → ℕ → RankMap n → List (Pattern n) → Option (List (Pattern n) × RankMap n)
unfolding lookup add_own erase
keep_own rank m ps = elim (lookup ltb rank m) [
  | none ↦ some (ps, m)
  | some own ↦ do ps' ← add_own own ps; some (ps', erase rank m)
]

-- The messages, by what the source sends: a number, ids of domains, numbers of pairs, extended ids,
-- iteration spaces.
pub data Message (n : ℕ) : Type 0 where
  number : ℕ → Message n
  domain_ids : List ℕ → Message n
  numbers : List ℕ → Message n
  extended_ids : List ExtendedId → Message n
  iteration_spaces : List (Box2 n) → Message n

-- The sends for one domain, and for all domains of one rank.
unfoldable pub halo_messages : {n : ℕ} → Halos n → List (Message n)
halo_messages [] = []
halo_messages ((key, spaces) ∷ es) =
    number (length spaces) ∷ iteration_spaces spaces ∷ halo_messages es

unfoldable pub pair_messages : {n : ℕ} → DomainMap n → List (Message n)
unfolding halo_messages
pair_messages [] = []
pair_messages ((id, es) ∷ m) =
    extended_ids (map (λ e. e.0) es) ∷ (halo_messages es ++ pair_messages m)

unfoldable pub domain_messages : {n : ℕ} → DomainMap n → List (Message n)
unfolding pair_messages
domain_messages m =
    domain_ids (map (λ e. e.0) m) ∷ numbers (map (λ e. length e.1) m) ∷ pair_messages m

-- All sends of a rank in order, each with the rank that it goes to.
unfoldable pub count_sends : {n : ℕ} → RankMap n → List (ℕ × Message n)
count_sends = map (λ e. (e.0, number (length e.1)))

unfoldable pub domain_sends : {n : ℕ} → RankMap n → List (ℕ × Message n)
unfolding domain_messages
domain_sends [] = []
domain_sends ((r, d) ∷ m) = map (λ x. (r, x)) (domain_messages d) ++ domain_sends m

unfoldable pub sends : {n : ℕ} → RankMap n → List (ℕ × Message n)
unfolding count_sends domain_sends
sends m = count_sends m ++ domain_sends m

-- The messages for one rank.
unfoldable pub channel : {n : ℕ} → ℕ → List (ℕ × Message n) → List (Message n)
channel rank [] = []
channel rank ((r, x) ∷ xs) = let rest = channel rank xs in if r == rank then x ∷ rest else rest

-- The receives, of a given number of items where the source gives one; `none` if the next message
-- is another.
unfoldable pub recv_number : {n : ℕ} → List (Message n) → Option (ℕ × List (Message n))
recv_number (number k ∷ xs) = some (k, xs)
recv_number xs = none

unfoldable pub recv_domain_ids : {n : ℕ} → ℕ → List (Message n) → Option (List ℕ × List (Message n))
recv_domain_ids k (domain_ids l ∷ xs) = if length l == k then some (l, xs) else none
recv_domain_ids k xs = none

unfoldable pub recv_numbers : {n : ℕ} → ℕ → List (Message n) → Option (List ℕ × List (Message n))
recv_numbers k (numbers l ∷ xs) = if length l == k then some (l, xs) else none
recv_numbers k xs = none

unfoldable pub recv_extended_ids :
    {n : ℕ} → ℕ → List (Message n) → Option (List ExtendedId × List (Message n))
recv_extended_ids k (extended_ids l ∷ xs) = if length l == k then some (l, xs) else none
recv_extended_ids k xs = none

unfoldable pub recv_spaces :
    {n : ℕ} → ℕ → List (Message n) → Option (List (Box2 n) × List (Message n))
recv_spaces k (iteration_spaces l ∷ xs) = if length l == k then some (l, xs) else none
recv_spaces k xs = none

-- The loop over the extended ids of one domain.
unfoldable pub recv_halos :
    {n : ℕ} → List ExtendedId → List (Message n) → Halos n → Option (Halos n × List (Message n))
unfolding recv_number recv_spaces upsert less
recv_halos [] xs send = some (send, xs)
recv_halos (key ∷ keys) xs send = do
  k ← recv_number xs
  l ← recv_spaces k.0 k.1
  recv_halos keys l.1 (upsert less key l.0 (λ v. v ++ l.0) send)

-- The loop over the numbers of pairs, with the ids of the domains.
unfoldable pub recv_domains :
    {n : ℕ}
    → List ℕ
    → List ℕ
    → List (Message n)
    → List (Pattern n)
    → Option (List (Pattern n) × List (Message n))
unfolding recv_extended_ids with_domain recv_halos
recv_domains ids [] xs ps = some (ps, xs)
recv_domains [] (np ∷ nps) xs ps = none
recv_domains (id ∷ ids) (np ∷ nps) xs ps = do
  keys ← recv_extended_ids np xs
  r ← with_domain id (recv_halos keys.0 keys.1) ps
  recv_domains ids nps r.1 r.0

unfoldable pub receive :
    {n : ℕ} → List (Message n) → List (Pattern n) → Option (List (Pattern n) × List (Message n))
unfolding recv_number recv_domain_ids recv_numbers recv_domains
receive xs ps = do
  k ← recv_number xs
  ids ← recv_domain_ids k.0 k.1
  nps ← recv_numbers k.0 ids.1
  recv_domains ids.0 nps.0 nps.1 ps

-- Whether a rank is one of those that were broadcast.
unfoldable pub is_sending : ℕ → List ℕ → Bool
is_sending rank [] = false
is_sending rank (r ∷ rs) = if r == rank then true else is_sending rank rs

-- One round of the loop over all ranks, at the rank `me`, where the rank of the round has the map
-- `m`: the patterns, with the messages that are left over.
unfoldable pub connect :
    {n : ℕ} → ℕ → RankMap n → List (Pattern n) → Option (List (Pattern n) × List (Message n))
unfolding is_sending receive channel sends
connect me m ps =
    if length m == 0
    then some (ps, [])
    else if is_sending me (map (λ e. e.0) m)
    then receive (channel me (sends m)) ps
    else some (ps, [])

-- The loop over all ranks, from the rank `r` on.
unfoldable pub connect_all :
    {n : ℕ} → ℕ → ℕ → List (RankMap n) → List (Pattern n) → Option (List (Pattern n))
unfolding connect
connect_all me r [] ps = some ps
connect_all me r (m ∷ ms) ps =
    let round = (if r == me then some ps else Option.map (λ x. x.0) (connect me m ps)) in
    do ps' ← round; connect_all me (r + 1) ms ps'
