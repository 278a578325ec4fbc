-- ===== src/Util/ResourceLayout/Laws.antt =====
-- include/ghex/util/resource_layout.hpp: the spatial coordinates of resources.
use ghex.Base.{ℕ, zero, suc, ◌+◌, ◌*◌, ◌<◌, ◌≡◌, refl, ap, ap₂, sym, true, false, arith, ◌∙◌}
use ghex.Base.Digits.{digit_unique}
use ghex.Base.Vec
use ghex.Base.Vec.{Vec, nil, cons, fill, zip_with}
use ghex.Util.DimsMap
use ghex.Util.DimsMap.Laws.{Within, linear, linear-coord}
use ghex.Util.ResourceLayout.{make, sizes, level_maps, level_step, get_coord, spatial}

-- A step is undone by division: components and coordinate are determined.
step-injective :
    {d : ℕ} (ds a b x y : Vec ℕ d)
    → Within a ds
    → Within b ds
    → zip_with ◌+◌ a (zip_with ◌*◌ x ds) ≡ zip_with ◌+◌ b (zip_with ◌*◌ y ds)
    → (a ≡ b) × (x ≡ y)
step-injective nil nil nil nil nil u v e = (refl, refl)
step-injective (cons d ds) (cons a v) (cons b w) (cons x vs) (cons y ws) ha hb e =
    let (p, q) = digit_unique d a b x y ha.0 hb.0 (omega (arith, ap Vec.head e)) in
    let (r, s) = step-injective ds v w vs ws ha.1 hb.1 (ap Vec.tail e) in
    (ap₂ cons p r, ap₂ cons q s)

-- An index within a level is determined by its coordinate there.
coord-injective :
    {d : ℕ} (v : Vec ℕ d) (i j : ℕ)
    → i < (DimsMap.make v false).size
    → j < (DimsMap.make v false).size
    → DimsMap.coord (DimsMap.make v false) i ≡ DimsMap.coord (DimsMap.make v false) j
    → i ≡ j
coord-injective v i j hi hj e =
    sym (linear-coord v false i hi).1
    ∙ ap (λ c. linear c (DimsMap.make v false).partial_product) e
    ∙ (linear-coord v false j hj).1

get_coord-injective :
    {d n : ℕ} (vs : Vec (Vec ℕ d) n) (is js : Vec ℕ n) (x y : Vec ℕ d)
    → Within is (sizes (level_maps vs))
    → Within js (sizes (level_maps vs))
    → get_coord (level_maps vs) is x ≡ get_coord (level_maps vs) js y
    → (is ≡ js) × (x ≡ y)
unfolding get_coord level_step DimsMap.make
get_coord-injective nil nil nil x y hi hj e = (refl, e)
get_coord-injective (cons v vs) (cons i is) (cons j js) x y hi hj e =
    let m = DimsMap.make v false in
    let (p, q) = get_coord-injective vs is js (level_step m i x) (level_step m j y) hi.1 hj.1 e in
    let (a, b) =
      step-injective v (DimsMap.coord m i) (DimsMap.coord m j) x y (linear-coord v false i hi.0).0
        (linear-coord v false j hj.0).0 q in
    (ap₂ cons (coord-injective v i j hi.0 hj.0 a) p, b)

size-dist :
    {d n : ℕ} (vs : Vec (Vec ℕ d) n) → (make vs).dist ≡ DimsMap.make (sizes (level_maps vs)) true
unfolding make
size-dist vs = refl

-- Two resource indices below the number of resources that have the same spatial coordinate are
-- equal.
pub spatial-injective :
    {d n : ℕ} (extents : Vec (Vec ℕ d) n) (i j : ℕ)
    → i < (make extents).dist.size
    → j < (make extents).dist.size
    → spatial (make extents) i ≡ spatial (make extents) j
    → i ≡ j
unfolding make spatial
spatial-injective {d} extents i j hi hj e =
    let s = sizes (level_maps extents) in
    let (wi, ei) = linear-coord s true i hi in
    let (wj, ej) = linear-coord s true j hj in
    let (p, q) = get_coord-injective extents _ _ (fill d 0) (fill d 0) wi wj e in
    sym ei ∙ ap (λ c. linear c (DimsMap.make s true).partial_product) p ∙ ej

-- The extents of the global domain: per dimension the product over the levels.
abbrev pub global_extents : {d n : ℕ} → Vec (Vec ℕ d) n → Vec ℕ d → Vec ℕ d
global_extents nil gs = gs
global_extents (cons v vs) gs = global_extents vs (zip_with ◌*◌ gs v)

step-Within :
    {d : ℕ} (ds gs a x : Vec ℕ d)
    → Within a ds
    → Within x gs
    → Within (zip_with ◌+◌ a (zip_with ◌*◌ x ds)) (zip_with ◌*◌ gs ds)
step-Within nil nil nil nil u w = tt
step-Within (cons d ds) (cons g gs) (cons a v) (cons x xs) u w =
    (grind arith, step-Within ds gs v xs u.1 w.1)

get_coord-Within :
    {d n : ℕ} (vs : Vec (Vec ℕ d) n) (is : Vec ℕ n) (x gs : Vec ℕ d)
    → Within is (sizes (level_maps vs))
    → Within x gs
    → Within (get_coord (level_maps vs) is x) (global_extents vs gs)
unfolding get_coord level_step DimsMap.make
get_coord-Within nil nil x gs hi w = w
get_coord-Within (cons v vs) (cons i is) x gs hi w =
    get_coord-Within vs is (level_step (DimsMap.make v false) i x) (zip_with ◌*◌ gs v) hi.1 (
      step-Within v gs (DimsMap.coord (DimsMap.make v false) i) x (linear-coord v false i hi.0).0 w)

zero-Within : (d : ℕ) → Within (fill d 0) (fill d 1)
zero-Within zero = tt
zero-Within (suc d) = (omega arith, zero-Within d)

-- The spatial coordinate of a resource index below the number of resources is below the product of
-- the levels' extents in each dimension.
pub spatial-Within :
    {d n : ℕ} (extents : Vec (Vec ℕ d) n) (i : ℕ)
    → i < (make extents).dist.size
    → Within (spatial (make extents) i) (global_extents extents (fill d 1))
unfolding make spatial
spatial-Within {d} extents i h =
    get_coord-Within extents _ (fill d 0) (fill d 1)
      (linear-coord (sizes (level_maps extents)) true i h).0 (zero-Within d)
