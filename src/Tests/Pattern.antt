-- ===== src/Tests/Pattern.antt =====
-- include/ghex/structured/pattern.hpp on concrete inputs.
use ghex.Base.{ℕ, ◌+◌, ◌*◌, ◌≡◌, refl, true, List, [], ◌∷◌, some, ltb}
use ghex.Base.Int.{ℤ, pos, negsuc, ◌+ℤ◌, ◌-ℤ◌, ◌*ℤ◌}
use ghex.Base.Vec.{Vec, nil, cons}
use ghex.Common.Coordinate.Laws.{}
use ghex.Structured.Space.{Box2}
use ghex.Structured.Regular.HaloGenerator
use ghex.Structured.Regular.HaloGenerator.{HaloGenerator, Domain, generate, intersect}
use ghex.Structured.Regular.HaloGenerator.Intersect.{}
use ghex.Structured.Pattern.{
  TagState, size, extent, convert_halos, receive_halos, tag_halos, tag_patterns,
}
use ghex.Structured.Pattern.Convert.{convert_halos-generate}
use ghex.Structured.Pattern.Receive.{
  count, count_domains, count_received, count_received-receive_halos,
}

abbrev at : ℤ → ℤ → Vec ℤ 2
at x y = cons x (cons y nil)

size_of_box : size (at (negsuc 0) (pos 2)) (at (pos 3) (pos 4)) ≡ pos 15
unfolding size ◌+ℤ◌ ◌-ℤ◌ ◌*ℤ◌
size_of_box = refl

-- Two domains side by side, 20 by 10 cells in all, periodic in both directions; halos of width one.
abbrev generator : HaloGenerator 2
generator =
    HaloGenerator.make (at (pos 0) (pos 0)) (at (pos 19) (pos 9))
      (pos 1 ∷ pos 1 ∷ pos 1 ∷ pos 1 ∷ []) (true ∷ true ∷ [])

abbrev west : Domain ℕ 2
west = record { id = 0; first = at (pos 0) (pos 0); last = at (pos 9) (pos 9) }

abbrev domains : List (ℕ × Box2 2)
domains =
    (0, extent (at (pos 0) (pos 0)) (at (pos 9) (pos 9)))
    ∷ (1, extent (at (pos 10) (pos 0)) (at (pos 19) (pos 9)))
    ∷ []

convert_halos-generate_example :
    convert_halos (generate generator west) ≡ some (generate generator west)
convert_halos-generate_example = convert_halos-generate generator west

count_received-receive_halos_example :
    count_received (at (pos 19) (pos 9)) (receive_halos ltb (generate generator west) domains [])
    ≡ 0
      + count (at (pos 19) (pos 9)) (generate generator west)
        * count_domains (at (pos 19) (pos 9)) domains
count_received-receive_halos_example =
    count_received-receive_halos ltb (at (pos 19) (pos 9)) (generate generator west) domains []

abbrev start : TagState
start = record { tag_map = []; max_tag = 0 }

-- Two patterns, which receive from the ranks 3, 5, 3 and 3, 5.
abbrev patterns : List (List ℕ)
patterns = (3 ∷ 5 ∷ 3 ∷ []) ∷ (3 ∷ 5 ∷ []) ∷ []

tags : (tag_patterns patterns start).0 ≡ (3, 0) ∷ (5, 0) ∷ (3, 1) ∷ (3, 2) ∷ (5, 1) ∷ []
unfolding tag_patterns tag_halos
tags = refl
