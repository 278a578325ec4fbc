-- ===== src/Structured/Pattern/Make/SetUp.antt =====
-- include/ghex/structured/pattern.hpp: the set-up of the patterns of all ranks.
use ghex.Base.{
  ℕ, ◌+◌, ◌≡◌, refl, ap, ap₂, ◌∙◌, true, false, List, [], ◌∷◌, none, some, arith, if◌then◌else◌,
  map, All,
}
use ghex.Base.Vec.{Vec, nil, cons}
use ghex.Base.Int.{ℤ, ◌-ℤ◌, -ℤ_parts, ltb_ℤ}
use ghex.Common.Coordinate
use ghex.Structured.Space.{Box2, local_first, local_last, global_first, global_last}
use ghex.Structured.Pattern.{to_pair, convert_halos, extent}
use ghex.Structured.Pattern.Domains.{Pattern, Generated, make_patterns, domains_of}
use ghex.Structured.Pattern.Make.{Rank, set_up}
use ghex.Structured.Pattern.Make.World.{AllFresh, IsFresh, gathered, id_of, ids_by_rank}

-- The domain is not empty, and the conversion of its halos does not throw.
abbrev pub IsUsable : {n : ℕ} → Generated n → Type 0
IsUsable {n} (d, halos) =
    (Coordinate.le d.first d.last ≡ true) × ((h : List (Box2 n)) × (convert_halos halos ≡ some h))

-- The ids of all domains, rank by rank.
abbrev pub all_ids : {n : ℕ} → List (Rank n) → List (List ℕ)
all_ids = map (λ x. map (λ d. d.0.id) x.domains)

ltb-shift : (a b : ℤ) → ltb_ℤ (b -ℤ a) (a -ℤ a) ≡ ltb_ℤ b a
ltb-shift a b = let u = -ℤ_parts b a in let v = -ℤ_parts a a in ground (arith, u, v)

extent_sides :
    {n : ℕ} (first last : Vec ℤ n)
    → (Coordinate.le (local_first (extent first last)) (local_last (extent first last))
        ≡ Coordinate.le first last)
      × (global_first (extent first last) ≡ first)
      × (global_last (extent first last) ≡ last)
unfolding extent Coordinate.le
extent_sides nil nil = (refl, refl, refl)
extent_sides (cons a first) (cons b last) =
    let ih = extent_sides first last in
    (ap₂ (λ s t. if s then false else t) (ltb-shift a b) ih.0, ap (cons a) ih.1, ap (cons b) ih.2)

to_pair-extent :
    {n : ℕ} (first last : Vec ℤ n)
    → Coordinate.le first last ≡ true
    → to_pair (extent first last) ≡ some (extent first last)
unfolding to_pair
to_pair-extent first last h =
    let sides = extent_sides first last in rw (sides.0 ∙ h, sides.1, sides.2, h) refl

module _ {n : ℕ} where
  -- The patterns of a rank, one for each of its domains.
  make_patterns_total :
      (rank address : ℕ) (ds : List (Generated n))
      → All IsUsable ds
      → (ps : List (Pattern n × List (Box2 n))) × (make_patterns rank address ds ≡ some ps)
        × All (IsFresh rank) ps
        × (map id_of (domains_of ps) ≡ map (λ d. d.0.id) ds)
  unfolding make_patterns domains_of
  make_patterns_total rank address [] u = ([], refl, tt, refl)
  make_patterns_total rank address ((d, halos) ∷ ds) u =
      let (ps, e, fresh, same) = make_patterns_total rank address ds u.1 in
      let (h, converted) = u.0.1 in
      (
        (
          record {
            id = record { id = d.id; rank = rank; address = address; tag = 0 };
            extents = extent d.first d.last;
            global_first = none;
            global_last = none;
            send_halos = [];
            recv_halos = [];
          },
          h,
        )
            ∷ ps,
        rw (to_pair-extent d.first d.last u.0.0, converted, e) refl,
        (((refl, refl), refl, refl), fresh),
        ap (λ l. d.id ∷ l) same,
      )

  -- The set-up of usable domains does not throw; it has one pattern for each domain.
  pub set_up_total :
      (r : ℕ) (ranks : List (Rank n))
      → All (λ x. All IsUsable x.domains) ranks
      → (pss : List (List (Pattern n × List (Box2 n)))) × (set_up r ranks ≡ some pss)
        × AllFresh r pss
        × (ids_by_rank (gathered pss) ≡ all_ids ranks)
  unfolding set_up
  set_up_total r [] u = ([], refl, tt, refl)
  set_up_total r (x ∷ xs) u =
      let (ps, a, fresh, same) = make_patterns_total r x.address x.domains u.0 in
      let (pss, b, rest, others) = set_up_total (r + 1) xs u.1 in
      (ps ∷ pss, rw (a, b) refl, (fresh, rest), ap₂ ◌∷◌ same others)
