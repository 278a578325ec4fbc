-- ===== src/Structured/Pattern.antt =====
-- include/ghex/structured/pattern.hpp: `make_pattern_impl` for structured grids, the part that runs
-- on one rank: the conversion of the halo generator's regions, their intersection with every domain,
-- the tags, and the send halos' local coordinates. What `all_gather` returns is a parameter. The
-- children Domains, Exchange and Make have the rest of the function, over all ranks.
pub mod Convert
pub mod Tags
pub mod Receive
pub mod Send
pub mod Domains
pub mod Exchange
pub mod Make
use ghex.Base.{
  ℕ, zero, suc, ◌+◌, Bool, true, false, ◌&&◌, List, [], ◌∷◌, ◌++◌, Option, none, some,
  if◌then◌else◌, ◌==◌, leb,
}
use ghex.Base.Int.{ℤ, pos, ◌+ℤ◌, ◌-ℤ◌, ◌*ℤ◌}
use ghex.Base.Vec.{Vec, nil, cons}
use ghex.Common.Coordinate
use ghex.Structured.Space.{Span, Box2, local_first, local_last, global_first, global_last}
use ghex.Structured.Regular.HaloGenerator

-- `iteration_space::size`: the loop over the dimensions after the first.
unfoldable pub size_loop : {n : ℕ} → ℤ → Vec ℤ n → Vec ℤ n → ℤ
size_loop s nil nil = s
size_loop s (cons a first) (cons b last) = size_loop (s *ℤ (b -ℤ a +ℤ pos 1)) first last

unfoldable pub size : {n : ℕ} → Vec ℤ (ℕ.suc n) → Vec ℤ (ℕ.suc n) → ℤ
unfolding size_loop
size (cons a first) (cons b last) = size_loop (b -ℤ a +ℤ pos 1) first last

-- The two constructors of an `iteration_space_pair`, which throw on an empty space.
unfoldable pub to_pair : {n : ℕ} → Box2 n → Option (Box2 n)
to_pair b =
    if Coordinate.le (local_first b) (local_last b)
    then if Coordinate.le (global_first b) (global_last b) then some b else none
    else none

-- The loop over the generated halos of a domain.
unfoldable pub convert_halos : {n : ℕ} → List (Box2 n) → Option (List (Box2 n))
unfolding to_pair
convert_halos [] = some []
convert_halos (b ∷ bs) =
    let rest = convert_halos bs in
    elim (to_pair b) [
      | none ↦ none
      | some p ↦ elim rest [
        | none ↦ none
        | some ps ↦ some (if Coordinate.le (local_first p) (local_last p) then p ∷ ps else ps)
      ]
    ]

-- The extents of a domain in its own and in global coordinates.
unfoldable pub extent : {n : ℕ} → Vec ℤ n → Vec ℤ n → Box2 n
extent nil nil = nil
extent (cons a first) (cons b last) =
    cons (record { local_first = a -ℤ a; local_last = b -ℤ a; global_first = a; global_last = b })
      (extent first last)

-- `global_min` and `global_max` over all extents.
unfoldable pub global_min : {n : ℕ} → Vec ℤ n → List (Box2 n) → Vec ℤ n
global_min m [] = m
global_min m (e ∷ es) = global_min (Coordinate.min m (global_first e)) es

unfoldable pub global_max : {n : ℕ} → Vec ℤ n → List (Box2 n) → Vec ℤ n
global_max m [] = m
global_max m (e ∷ es) = global_max (Coordinate.max m (global_last e)) es

-- `std::map::operator[]` and `push_back`: the keys are in the order of `less`.
unfoldable pub push :
    {Key V : Type 0} → (Key → Key → Bool) → Key → V → List (Key × List V) → List (Key × List V)
push less k v [] = (k, v ∷ []) ∷ []
push less k v ((l, vs) ∷ es) =
    let rest = push less k v es in
    if less k l
    then (k, v ∷ []) ∷ (l, vs) ∷ es
    else if less l k
    then (l, vs) ∷ rest
    else (l, vs ++ (v ∷ [])) ∷ es

module _ {Key : Type 0} {n : ℕ} (less : Key → Key → Bool) where
  -- One halo against one domain of one rank.
  unfoldable pub receive_from :
      Box2 n → Key × Box2 n → List (Key × List (Box2 n)) → List (Key × List (Box2 n))
  unfolding push
  receive_from halo (key, e) recv =
      let x = HaloGenerator.intersect halo (global_first e) (global_last e) in
      if Coordinate.le (global_first x) (global_last x) then push less key x recv else recv

  -- One halo against all domains, rank by rank.
  unfoldable pub receive_halo :
      Box2 n → List (Key × Box2 n) → List (Key × List (Box2 n)) → List (Key × List (Box2 n))
  unfolding receive_from
  receive_halo halo [] recv = recv
  receive_halo halo (e ∷ es) recv = receive_halo halo es (receive_from halo e recv)

  -- All halos of one domain.
  unfoldable pub receive_halos :
      List (Box2 n) → List (Key × Box2 n) → List (Key × List (Box2 n)) → List (Key × List (Box2 n))
  unfolding receive_halo
  receive_halos [] es recv = recv
  receive_halos (h ∷ hs) es recv = receive_halos hs es (receive_halo h es recv)

-- `tag_map` and `m_max_tag`.
pub record TagState : Type 0 where
  pub tag_map : List (ℕ × ℕ)
  pub max_tag : ℕ

unfoldable pub find : ℕ → List (ℕ × ℕ) → Option ℕ
find r [] = none
find r ((k, t) ∷ m) = let rest = find r m in if r == k then some t else rest

-- Assignment to the entry of a rank, which is inserted where it is missing.
unfoldable pub assign : ℕ → ℕ → List (ℕ × ℕ) → List (ℕ × ℕ)
assign r t [] = (r, t) ∷ []
assign r t ((k, u) ∷ m) = let rest = assign r t m in if r == k then (k, t) ∷ m else (k, u) ∷ rest

-- The body of the loop: the tag for a halo that is received from `rank`.
unfoldable pub next_tag : ℕ → TagState → ℕ × TagState
unfolding find assign
next_tag rank s = elim (find rank s.tag_map) [
  | none ↦ (0, record s { tag_map = assign rank 0 s.tag_map })
  | some t ↦ (
    t + 1,
    record {
      tag_map = assign rank (t + 1) s.tag_map;
      max_tag = if leb (t + 1) s.max_tag then s.max_tag else t + 1;
    },
  )
]

-- The loop over the receive halos of a pattern, given by their ranks: each rank with its tag.
unfoldable pub tag_halos : List ℕ → TagState → List (ℕ × ℕ) × TagState
unfolding next_tag
tag_halos [] s = ([], s)
tag_halos (r ∷ rs) s =
    let (t, s') = next_tag r s in let (ts, s'') = tag_halos rs s' in ((r, t) ∷ ts, s'')

-- The loop over all patterns.
unfoldable pub tag_patterns : List (List ℕ) → TagState → List (ℕ × ℕ) × TagState
unfolding tag_halos
tag_patterns [] s = ([], s)
tag_patterns (p ∷ ps) s =
    let (ts, s') = tag_halos p s in let (us, s'') = tag_patterns ps s' in (ts ++ us, s'')

-- The receive halo's iteration spaces in the local coordinates of the domain that sends, whose
-- extents are given.
unfoldable pub recast : {n : ℕ} → Box2 n → Box2 n → Box2 n
recast nil nil = nil
recast (cons e es) (cons s b) =
    cons
      (record s {
        local_first = e.local_first +ℤ (s.global_first -ℤ e.global_first);
        local_last = e.local_first +ℤ (s.global_last -ℤ e.global_first);
      })
      (recast es b)
