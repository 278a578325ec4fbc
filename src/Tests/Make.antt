-- ===== src/Tests/Make.antt =====
-- include/ghex/structured/pattern.hpp: `make_pattern_impl` on two ranks.
use mathlib.Core.List
use ghex.Base.{
  ◌≤◌, ℕ, ◌+◌, ◌≡◌, refl, true, List, [], ◌∷◌, none, some, get_elem?, inl, inr, arith, ltb,
}
use ghex.Base.Int.{ℤ, pos, negsuc, ◌+ℤ◌, ◌-ℤ◌, ◌%ℤ◌, min_ℤ, max_ℤ}
use ghex.Base.Vec.{nil, cons}
use ghex.Base.OrderedMap.{lookup}
use ghex.Common.Coordinate
use ghex.Structured.Space.{Box2}
use ghex.Structured.Regular.HaloGenerator
use ghex.Structured.Regular.HaloGenerator.{HaloGenerator, Domain, generate}
use ghex.Structured.Pattern.Convert.{convert_halos-generate}
use ghex.Structured.Pattern.Domains.{less, Pattern, Generated, ExtendedId, RankMap}
use ghex.Structured.Pattern.Exchange.{connect}
use ghex.Structured.Pattern.Exchange.RoundTrip.{beside}
use ghex.Structured.Pattern.Exchange.Channel.{append_entry, connect-append_entry}
use ghex.Structured.Pattern.Make.{Rank, make_pattern}
use ghex.Structured.Pattern.Make.Find.{find}
use ghex.Structured.Pattern.Make.Converse.{IsReceived}
use ghex.Structured.Pattern.Make.SetUp.{IsUsable}
use ghex.Structured.Pattern.Make.Matched.{IsSent}
use ghex.Structured.Pattern.Make.Correct.{
  IsWellFormed, make_pattern_total, make_pattern-IsSent, make_pattern-IsReceived,
  make_pattern-recv_tags,
}

-- Thirty cells in a ring, with halos of one cell below and two above.
abbrev generator : HaloGenerator 1
generator =
    HaloGenerator.make (cons (pos 0) nil) (cons (pos 29) nil) (pos 1 ∷ pos 2 ∷ []) (true ∷ [])

abbrev domain : ℕ → ℤ → ℤ → Domain ℕ 1
domain id a b = record { id = id; first = cons a nil; last = cons b nil }

abbrev piece : ℕ → ℤ → ℤ → Generated 1
piece id a b = (domain id a b, generate generator (domain id a b))

-- The first and the last third on one rank, the middle on the other.
abbrev ranks : List (Rank 1)
ranks =
    record { address = 70; domains = piece 4 (pos 0) (pos 9) ∷ piece 6 (pos 20) (pos 29) ∷ [] }
    ∷ record { address = 71; domains = piece 5 (pos 10) (pos 19) ∷ [] }
    ∷ []

usable :
    (id : ℕ) (a b : ℤ) → Coordinate.le (cons a nil) (cons b nil) ≡ true → IsUsable (piece id a b)
usable id a b h =
    (h, (generate generator (domain id a b), convert_halos-generate generator (domain id a b)))

ranks-IsWellFormed : IsWellFormed ranks
unfolding List.flat_map Coordinate.le
ranks-IsWellFormed = record {
  usable = (
    (usable 4 (pos 0) (pos 9) refl, (usable 6 (pos 20) (pos 29) refl, tt)),
    ((usable 5 (pos 10) (pos 19) refl, tt), tt),
  );
  once = (
    (λ e. omega (arith, e), (λ e. omega (arith, e), tt)),
    ((λ e. omega (arith, e), tt), (tt, tt)),
  );
}

make_pattern_total_example :
    (final : List (List (Pattern 1))) × (t : ℕ) × (make_pattern ranks ≡ some (final, t))
make_pattern_total_example =
    make_pattern_total ranks ranks-IsWellFormed (omega arith, (omega arith, tt))

abbrev id_at : ℕ → ℕ → ℕ → ExtendedId
id_at id rank tag = record { id = id; rank = rank; address = 70 + rank; tag = tag }

abbrev cells : ℤ → ℤ → ℤ → ℤ → Box2 1
cells a b c d =
    cons (record { local_first = a; local_last = b; global_first = c; global_last = d }) nil

-- A rank without a domain has no first extents to start from.
made_of_none : make_pattern {n = 1} (record { address = 70; domains = [] } ∷ []) ≡ none
unfolding make_pattern
made_of_none = refl

-- The patterns that are made, and the one of the middle.
abbrev final : List (List (Pattern 1))
final = elim (make_pattern ranks) [ none ↦ [] | some x ↦ x.0 ]

abbrev middle : Pattern 1
middle = record {
  id = id_at 5 1 0;
  extents = cells (pos 0) (pos 9) (pos 10) (pos 19);
  global_first = some (cons (pos 0) nil);
  global_last = some (cons (pos 29) nil);
  send_halos =
      (id_at 4 0 0, cells (pos 0) (pos 1) (pos 10) (pos 11) ∷ [])
      ∷ (id_at 6 0 1, cells (pos 9) (pos 9) (pos 19) (pos 19) ∷ [])
      ∷ [];
  recv_halos =
      (id_at 4 0 0, cells (negsuc 0) (negsuc 0) (pos 9) (pos 9) ∷ [])
      ∷ (id_at 6 0 1, cells (pos 10) (pos 11) (pos 20) (pos 21) ∷ [])
      ∷ [];
}

middle_made : get_elem? final 1 ≡ some (middle ∷ [])
unfolding make_pattern Coordinate.le ◌-ℤ◌ generate HaloGenerator.make Coordinate.ge ◌+ℤ◌ ◌%ℤ◌
    HaloGenerator.intersect min_ℤ max_ℤ Coordinate.min Coordinate.max
middle_made = refl

made : make_pattern ranks ≡ some (final, 1)
unfolding make_pattern Coordinate.le ◌-ℤ◌ generate HaloGenerator.make Coordinate.ge ◌+ℤ◌ ◌%ℤ◌
    HaloGenerator.intersect min_ℤ max_ℤ Coordinate.min Coordinate.max
made = refl

make_pattern-IsSent_example :
    IsSent final (id_at 5 1 0) (id_at 6 0 1) (cells (pos 10) (pos 11) (pos 20) (pos 21) ∷ [])
make_pattern-IsSent_example =
    make_pattern-IsSent ranks ranks-IsWellFormed final 1 1 (middle ∷ []) middle (id_at 6 0 1)
      (cells (pos 10) (pos 11) (pos 20) (pos 21) ∷ []) made middle_made (inl refl) (inr (inl refl))

sent_up :
    find (id_at 6 0 1) middle.send_halos
    ≡ some (id_at 6 0 1, cells (pos 9) (pos 9) (pos 19) (pos 19) ∷ [])
unfolding lookup less
sent_up = refl

make_pattern-IsReceived_example :
    IsReceived final middle (id_at 6 0 1, cells (pos 9) (pos 9) (pos 19) (pos 19) ∷ [])
make_pattern-IsReceived_example =
    make_pattern-IsReceived ranks ranks-IsWellFormed final 1 1 (middle ∷ []) middle (id_at 6 0 1)
      (id_at 6 0 1, cells (pos 9) (pos 9) (pos 19) (pos 19) ∷ []) made middle_made (inl refl)
      sent_up

make_pattern-recv_tags_example : ◌≡◌ {A = ℕ} 1 1 × (1 ≤ 1)
make_pattern-recv_tags_example =
    make_pattern-recv_tags ranks ranks-IsWellFormed final 1 1 (middle ∷ []) 1 1 0 1 made middle_made
      refl refl

-- What rank 0 has for rank 1.
abbrev for_middle : RankMap 1
for_middle = (1, (5, (id_at 4 0 0, cells (pos 0) (pos 1) (pos 10) (pos 11) ∷ []) ∷ []) ∷ []) ∷ []

connect-append_entry_example :
    connect 1 for_middle (middle ∷ [])
    ≡ beside [] (append_entry (lookup ltb 1 for_middle) (middle ∷ []))
connect-append_entry_example = connect-append_entry 1 for_middle (middle ∷ []) ((tt, tt))
