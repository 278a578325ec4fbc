-- ===== src/Tests/RmaRange.antt =====
-- include/ghex/structured/rma_range.hpp on concrete inputs.
use ghex.Base.{◌≡◌, refl, arith}
use ghex.Base.Int.{pos}
use ghex.Base.Vec.{nil, cons}
use ghex.Structured.RmaRange.{RmaRange, make, inc, inc_by, place_at}
use ghex.Structured.RmaRange.Increment.{inc-inc_by}

-- Three by four chunks of five elements.
abbrev range : RmaRange 2
range = make (cons 3 (cons 4 nil)) 5

place_of_chunk : place_at range 7 ≡ (7, record { outer = cons 1 (cons 3 nil); inner = 0 })
unfolding place_at make
place_of_chunk = refl

inc-inc_by_example : inc range 7 (place_at range 7).1 ≡ inc_by range 7 (pos 1)
unfolding make
inc-inc_by_example = inc-inc_by (cons 3 (cons 4 nil)) 5 7 (omega arith) (omega arith)
