-- ===== src/Structured/Pattern/Send.antt =====
-- include/ghex/structured/pattern.hpp: send halos in the coordinates of the domain that sends.
use ghex.Base.{◌≡◌, ◌↔◌, ℕ, refl, ap₂}
use ghex.Base.Int.{ℤ, int_laws, max_ℤ_ge, min_ℤ_le}
use ghex.Base.Vec.{Vec, nil, cons}
use ghex.Common.Coordinate.Laws.{Le}
use ghex.Structured.Space.{Box2, local_first, local_last, global_first, global_last}
use ghex.Structured.Regular.HaloGenerator.{intersect}
use ghex.Structured.Regular.HaloGenerator.Intersect.{Corresponds}
use ghex.Structured.Pattern.{extent, recast}

-- For any halo and any domain: the halo's intersection with the domain, recast to the domain's local
-- coordinates, stays within the domain's local extents on both sides.
pub recast-Le :
    {n : ℕ} (halo : Box2 n) (first last : Vec ℤ n)
    → Le
        (local_first (extent first last))
        (local_first (recast (extent first last) (intersect halo first last)))
      × Le
          (local_last (recast (extent first last) (intersect halo first last)))
          (local_last (extent first last))
unfolding extent recast intersect
recast-Le nil nil nil = (tt, tt)
recast-Le (cons h hs) (cons f fs) (cons l ls) =
    let ih = recast-Le hs fs ls in
    ((omega (int_laws, max_ℤ_ge, min_ℤ_le), ih.0), (omega (int_laws, max_ℤ_ge, min_ℤ_le), ih.1))

-- For any domain and any box: a global and a local point are the same cell of the domain, counted
-- from its first corner, exactly if they are the same cell of the recast box; and the recast box has
-- the global side of the given one.
recast-Corresponds :
    {n : ℕ} (first last : Vec ℤ n) (b : Box2 n) (p q : Vec ℤ n)
    → (Corresponds (extent first last) p q ↔ Corresponds (recast (extent first last) b) p q)
      × (global_first (recast (extent first last) b) ≡ global_first b)
      × (global_last (recast (extent first last) b) ≡ global_last b)
unfolding extent recast
recast-Corresponds nil nil nil nil nil = ((λ _. tt, λ _. tt), refl, refl)
recast-Corresponds (cons f fs) (cons l ls) (cons s b) (cons x p) (cons y q) =
    let ih = recast-Corresponds fs ls b p q in
    (
      (λ h. (omega (int_laws, h.0), ih.0.0 h.1), λ h. (omega (int_laws, h.0), ih.0.1 h.1)),
      ap₂ cons refl ih.1,
      ap₂ cons refl ih.2,
    )
