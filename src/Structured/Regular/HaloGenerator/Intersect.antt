-- ===== src/Structured/Regular/HaloGenerator/Intersect.antt =====
-- include/ghex/structured/regular/halo_generator.hpp: `intersect`.
use ghex.Base.{ℕ, ◌≡◌, ◌↔◌, arith}
use ghex.Base.Int.{ℤ, ◌-ℤ◌, int_laws, max_ℤ_parts, min_ℤ_parts}
use ghex.Base.Vec.{Vec, nil, cons}
use ghex.Common.Coordinate.Laws.{Le}
use ghex.Structured.Space.{Box2, global_first, global_last}
use ghex.Structured.Regular.HaloGenerator.{intersect, intersect_span}

-- The global point `p` and the local point `q` are one point of the box: they are equally far from
-- the first corner on both sides.
abbrev pub Corresponds : {n : ℕ} → Box2 n → Vec ℤ n → Vec ℤ n → Type 0
Corresponds nil nil nil = Unit {0}
Corresponds (cons s b) (cons x p) (cons y q) =
    (x -ℤ s.global_first ≡ y -ℤ s.local_first) × Corresponds b p q

-- A global point is in the global side of the intersection exactly if it is in both global boxes.
intersect_points :
    {n : ℕ} (a : Box2 n) (first last p : Vec ℤ n)
    → (Le (global_first (intersect a first last)) p × Le p (global_last (intersect a first last)))
      ↔ ((Le (global_first a) p × Le p (global_last a)) × (Le first p × Le p last))
unfolding intersect
intersect_points nil nil nil nil = (λ _. ((tt, tt), (tt, tt)), λ _. (tt, tt))
intersect_points (cons a v) (cons f fs) (cons l ls) (cons x p) =
    let u = max_ℤ_parts a.global_first f in
    let w = min_ℤ_parts a.global_last l in ground (arith, u, w, intersect_points v fs ls p)

-- A local and a global point are equally far from the first corners of a box, in every dimension,
-- exactly if they are so in the intersection.
intersect-Corresponds :
    {n : ℕ} (a : Box2 n) (first last p q : Vec ℤ n)
    → Corresponds a p q ↔ Corresponds (intersect a first last) p q
unfolding intersect intersect_span
intersect-Corresponds nil nil nil nil nil = (λ _. tt, λ _. tt)
intersect-Corresponds (cons a v) (cons f fs) (cons l ls) (cons x p) (cons y q) =
    let ih = intersect-Corresponds v fs ls p q in
    (λ h. (omega (int_laws, h.0), ih.0 h.1), λ h. (omega (int_laws, h.0), ih.1 h.1))
