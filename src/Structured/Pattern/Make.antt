-- ===== src/Structured/Pattern/Make.antt =====
-- include/ghex/structured/pattern.hpp: `make_pattern_impl` over all ranks, step by step: what every
-- rank computes, with what `all_gather` returns from all of them, and the exchange of send halos.
pub mod Find
pub mod Sends
pub mod Translate
pub mod Grow
pub mod Rounds
pub mod Gain
pub mod Keys
pub mod Prepared
pub mod World
pub mod SetUp
pub mod Valid
pub mod Own
pub mod Locals
pub mod Globals
pub mod Results
pub mod Owners
pub mod Answer
pub mod Matched
pub mod Found
pub mod Converse
pub mod Tags
pub mod Correct
use ghex.Base.{ℕ, ◌+◌, leb, if◌then◌else◌, List, [], ◌∷◌, Option, some, ◌>>=◌, map}
use ghex.Structured.Space.{Box2}
use ghex.Structured.Pattern.{TagState}
use ghex.Structured.Pattern.Domains.{
  ExtendedId, Pattern, Generated, RankMap, make_patterns, domains_of, set_global, receive_all,
  set_all_tags, translate_all,
}
use ghex.Structured.Pattern.Exchange.{keep_own, connect_all}

-- A rank: the address of its communicator, and its domains.
pub record Rank (n : ℕ) : Type 0 where
  pub address : ℕ
  pub domains : List (Generated n)

-- A rank's patterns with its send halos for other ranks, and its maximum tag.
pub record Local (n : ℕ) : Type 0 where
  pub patterns : List (Pattern n)
  pub send_halos_map : RankMap n
  pub max_tag : ℕ

abbrev pub no_tags : TagState
no_tags = record { tag_map = []; max_tag = 0 }

module _ {n : ℕ} where
  -- The patterns of all ranks from the rank `r` on, before any communication.
  unfoldable pub set_up : ℕ → List (Rank n) → Option (List (List (Pattern n × List (Box2 n))))
  unfolding make_patterns
  set_up r [] = some []
  set_up r (x ∷ xs) = do
    ps ← make_patterns r x.address x.domains
    rest ← set_up (r + 1) xs
    some (ps ∷ rest)

  -- The patterns of all ranks with their global extents.
  unfoldable pub set_globals :
      List (List (ExtendedId × Box2 n))
      → List (List (Pattern n × List (Box2 n)))
      → Option (List (List (Pattern n × List (Box2 n))))
  unfolding set_global
  set_globals domains [] = some []
  set_globals domains (ps ∷ rest) = do
    qs ← set_global domains ps
    others ← set_globals domains rest
    some (qs ∷ others)

  -- What the rank `r` computes from the domains of all ranks.
  unfoldable pub make_local :
      List (List (ExtendedId × Box2 n)) → ℕ → List (Pattern n × List (Box2 n)) → Option (Local n)
  unfolding receive_all set_all_tags translate_all keep_own
  make_local domains r ps =
      let tagged = set_all_tags (receive_all domains ps) no_tags in
      do
        m ← translate_all domains tagged.0 []
        own ← keep_own r m tagged.0
        some (record { patterns = own.0; send_halos_map = own.1; max_tag = tagged.1.max_tag })

  unfoldable pub make_locals :
      List (List (ExtendedId × Box2 n))
      → ℕ
      → List (List (Pattern n × List (Box2 n)))
      → Option (List (Local n))
  unfolding make_local
  make_locals domains r [] = some []
  make_locals domains r (ps ∷ rest) = do
    l ← make_local domains r ps
    ls ← make_locals domains (r + 1) rest
    some (l ∷ ls)

  -- The exchange at every rank from the rank `r` on, with the maps of all ranks.
  unfoldable pub connect_ranks :
      List (RankMap n) → ℕ → List (Local n) → Option (List (List (Pattern n)))
  unfolding connect_all
  connect_ranks maps r [] = some []
  connect_ranks maps r (l ∷ ls) = do
    ps ← connect_all r 0 maps l.patterns
    rest ← connect_ranks maps (r + 1) ls
    some (ps ∷ rest)

  -- The maximum tag over all ranks.
  unfoldable pub max_tags : ℕ → List (Local n) → ℕ
  max_tags t [] = t
  max_tags t (l ∷ ls) = max_tags (if leb l.max_tag t then t else l.max_tag) ls

  -- The patterns of all ranks, with the maximum tag.
  unfoldable pub make_pattern : List (Rank n) → Option (List (List (Pattern n)) × ℕ)
  unfolding set_up domains_of set_globals make_locals connect_ranks max_tags
  make_pattern ranks = do
    ps ← set_up 0 ranks
    qs ← set_globals (map domains_of ps) ps
    ls ← make_locals (map domains_of ps) 0 qs
    final ← connect_ranks (map (λ l. l.send_halos_map) ls) 0 ls
    some (final, max_tags 0 ls)
