-- ===== src/Structured/Pattern/Domains.antt =====
-- include/ghex/structured/pattern.hpp: the pattern of a domain, and what a rank does with its own
-- domains in `make_pattern_impl`: their set-up, their receive halos and the tags of these, and the
-- translation of receive halos to send halos. Domain ids and addresses are numbers.
use mathlib.Core.List
use ghex.Base.{
  ℕ, Bool, true, false, List, [], ◌∷◌, ◌++◌, Option, none, some, if◌then◌else◌, ◌==◌, ltb, ◌>>=◌,
  get_elem?, map,
}
use ghex.Base.OrderedMap.{upsert}
use ghex.Base.Int.{ℤ}
use ghex.Base.Vec.{Vec}
use ghex.Structured.Space.{Box2, global_first, global_last}
use ghex.Structured.Regular.HaloGenerator.{Domain}
use ghex.Structured.Pattern.{
  TagState, to_pair, convert_halos, extent, global_min, global_max, receive_halos, next_tag, recast,
}

-- `extended_domain_id_type`
pub record ExtendedId : Type 0 where
  pub id : ℕ
  pub rank : ℕ
  pub address : ℕ
  pub tag : ℕ

-- The order of the keys, by id and tag.
unfoldable pub less : ExtendedId → ExtendedId → Bool
less a b = if ltb a.id b.id then true else if a.id == b.id then ltb a.tag b.tag else false

-- `map_type`
abbrev pub Halos : ℕ → Type 0
Halos n = List (ExtendedId × List (Box2 n))

pub record Pattern (n : ℕ) : Type 0 where
  pub id : ExtendedId
  pub extents : Box2 n
  -- none until they are assigned
  pub global_first : Option (Vec ℤ n)
  pub global_last : Option (Vec ℤ n)
  pub send_halos : Halos n
  pub recv_halos : Halos n

-- A domain with the halos that the halo generator gives for it.
abbrev pub Generated : ℕ → Type 0
Generated n = Domain ℕ n × List (Box2 n)

-- The loop over the domains: each pattern with its receive halos in the internal format.
unfoldable pub make_patterns :
    {n : ℕ} → ℕ → ℕ → List (Generated n) → Option (List (Pattern n × List (Box2 n)))
unfolding to_pair convert_halos extent
make_patterns rank address [] = some []
make_patterns rank address ((d, halos) ∷ ds) = do
  extents ← to_pair (extent d.first d.last)
  recv ← convert_halos halos
  rest ← make_patterns rank address ds
  some (
      (
        record {
          id = record { id = d.id; rank = rank; address = address; tag = 0 };
          extents = extents;
          global_first = none;
          global_last = none;
          send_halos = [];
          recv_halos = [];
        },
        recv,
      )
      ∷ rest)

-- What a rank passes to `all_gather`: its domains' ids with their extents.
unfoldable pub domains_of : {n : ℕ} → List (Pattern n × List (Box2 n)) → List (ExtendedId × Box2 n)
domains_of [] = []
domains_of ((p, h) ∷ ps) = (p.id, p.extents) ∷ domains_of ps

-- The loop that assigns the global extents to a rank's patterns.
unfoldable pub assign_global :
    {n : ℕ}
    → Vec ℤ n
    → Vec ℤ n
    → List (Pattern n × List (Box2 n))
    → List (Pattern n × List (Box2 n))
assign_global first last [] = []
assign_global first last ((p, h) ∷ ps) =
    (record p { global_first = some first; global_last = some last }, h)
    ∷ assign_global first last ps

-- The global extents, from those of the rank's first domain and of all domains. A rank without
-- domains reads past the end of its extents.
unfoldable pub set_global :
    {n : ℕ}
    → List (List (ExtendedId × Box2 n))
    → List (Pattern n × List (Box2 n))
    → Option (List (Pattern n × List (Box2 n)))
unfolding assign_global global_min global_max List.flat_map
set_global domains [] = none
set_global domains ((p, h) ∷ ps) =
    let extents = map (λ x. x.1) (List.flat_map (λ x. x) domains) in
    some (
      assign_global (global_min (global_first p.extents) extents)
        (global_max (global_last p.extents) extents) ((p, h) ∷ ps))

-- The receive halos of all patterns, where `domains` are those of all ranks, rank by rank.
unfoldable pub receive_all :
    {n : ℕ}
    → List (List (ExtendedId × Box2 n))
    → List (Pattern n × List (Box2 n))
    → List (Pattern n)
unfolding receive_halos less List.flat_map
receive_all domains [] = []
receive_all domains ((p, halos) ∷ ps) =
    record p { recv_halos = receive_halos less halos (List.flat_map (λ x. x) domains) p.recv_halos }
    ∷ receive_all domains ps

-- The tags of the receive halos of a pattern.
unfoldable pub set_tags : {n : ℕ} → Halos n → TagState → Halos n × TagState
unfolding next_tag
set_tags [] s = ([], s)
set_tags ((key, spaces) ∷ halos) s =
    let (t, s') = next_tag key.rank s in
    let (rest, s'') = set_tags halos s' in ((record key { tag = t }, spaces) ∷ rest, s'')

unfoldable pub set_all_tags : {n : ℕ} → List (Pattern n) → TagState → List (Pattern n) × TagState
unfolding set_tags
set_all_tags [] s = ([], s)
set_all_tags (p ∷ ps) s =
    let (halos, s') = set_tags p.recv_halos s in
    let (rest, s'') = set_all_tags ps s' in (record p { recv_halos = halos } ∷ rest, s'')

-- `send_halos_map`: rank, then the domain of that rank, then the domain here that receives.
abbrev pub DomainMap : ℕ → Type 0
DomainMap n = List (ℕ × Halos n)

abbrev pub RankMap : ℕ → Type 0
RankMap n = List (ℕ × DomainMap n)

-- `operator[]` of the three maps, and the insertion at the end of the vector.
unfoldable pub add_spaces : {n : ℕ} → ExtendedId → List (Box2 n) → Halos n → Halos n
unfolding upsert less
add_spaces key spaces = upsert less key spaces (λ v. v ++ spaces)

unfoldable pub add_halo : {n : ℕ} → ℕ → ExtendedId → List (Box2 n) → DomainMap n → DomainMap n
unfolding upsert add_spaces
add_halo id key spaces = upsert ltb id (add_spaces key spaces []) (add_spaces key spaces)

unfoldable pub add_send : {n : ℕ} → ℕ → ℕ → ExtendedId → List (Box2 n) → RankMap n → RankMap n
unfolding upsert add_halo
add_send rank id key spaces = upsert ltb rank (add_halo id key spaces []) (add_halo id key spaces)

-- The search for the extents of a domain by its id; past the end is undefined.
unfoldable pub find_extents : {n : ℕ} → ℕ → List (ExtendedId × Box2 n) → Option (Box2 n)
find_extents id [] = none
find_extents id ((key, e) ∷ ds) =
    let rest = find_extents id ds in if key.id == id then some e else rest

-- The loop over the receive halos of the pattern `me`.
unfoldable pub translate :
    {n : ℕ}
    → List (List (ExtendedId × Box2 n))
    → ExtendedId
    → Halos n
    → RankMap n
    → Option (RankMap n)
unfolding add_send find_extents recast
translate domains me [] m = some m
translate domains me ((key, spaces) ∷ halos) m = do
  ds ← get_elem? domains key.rank
  e ← find_extents key.id ds
  translate domains me halos
      (add_send key.rank key.id (record me { tag = key.tag }) (map (recast e) spaces) m)

unfoldable pub translate_all :
    {n : ℕ} → List (List (ExtendedId × Box2 n)) → List (Pattern n) → RankMap n → Option (RankMap n)
unfolding translate
translate_all domains [] m = some m
translate_all domains (p ∷ ps) m = do
  m' ← translate domains p.id p.recv_halos m
  translate_all domains ps m'
