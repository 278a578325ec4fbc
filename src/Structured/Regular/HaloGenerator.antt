-- ===== src/Structured/Regular/HaloGenerator.antt =====
-- include/ghex/structured/regular/halo_generator.hpp (and domain_descriptor.hpp): the halo regions
-- around a box shaped domain, in local and in global coordinates, and their intersection with
-- another domain.
pub mod Count
pub mod Cover
pub mod Wrap
pub mod Intersect
use ghex.Base.{
  ℕ, zero, suc, ◌+◌, ◌*◌, ◌/◌, Bool, true, false, List, [], ◌∷◌, ◌++◌, if◌then◌else◌, ◌==◌,
}
use mathlib.Core.List
use ghex.Base.Int.{ℤ, pos, negsuc, ◌+ℤ◌, ◌-ℤ◌, ◌%ℤ◌, max_ℤ, min_ℤ}
use ghex.Base.Vec
use ghex.Base.Vec.{Vec, nil, cons, zip_with}
use ghex.Common.Coordinate
use ghex.Structured.Space.{Span, Box2, local_first, local_last}

-- `domain_descriptor`: last is inclusive.
pub record Domain (DomainId : Type 0) (n : ℕ) : Type 0 where
  pub id : DomainId
  pub first : Vec ℤ n
  pub last : Vec ℤ n

-- `m_halos` holds two entries for each dimension, `minus` and `plus`.
pub record Halo : Type 0 where
  pub minus : ℤ
  pub plus : ℤ

pub record HaloGenerator (n : ℕ) : Type 0 where
  pub first : Vec ℤ n
  pub last : Vec ℤ n
  pub halos : Vec Halo n
  pub periodic : Vec Bool n

-- `m_halos.fill(0)`, then `std::copy` of the given range, which is no longer than the array.
unfoldable pub copy_halos : {n : ℕ} → Vec Halo n → List ℤ → Vec Halo n
copy_halos nil l = nil
copy_halos (cons h v) [] = cons h v
copy_halos (cons h v) (m ∷ []) = cons (record h { minus = m }) v
copy_halos (cons h v) (m ∷ p ∷ l) = cons (record { minus = m; plus = p }) (copy_halos v l)

unfoldable pub copy_periodic : {n : ℕ} → Vec Bool n → List Bool → Vec Bool n
copy_periodic nil l = nil
copy_periodic (cons b v) [] = cons b v
copy_periodic (cons b v) (x ∷ l) = cons x (copy_periodic v l)

abbrev no_halo : Halo
no_halo = record { minus = pos 0; plus = pos 0 }

unfoldable pub make : {n : ℕ} → Vec ℤ n → Vec ℤ n → List ℤ → List Bool → HaloGenerator n
unfolding copy_halos copy_periodic
make {n} g_first g_last halos periodic = record {
  first = g_first;
  last = g_last;
  halos = copy_halos (Vec.fill n no_halo) halos;
  periodic = copy_periodic (Vec.fill n true) periodic;
}

-- The three spaces of one dimension: below, inside and above the domain.
unfoldable pub left : Halo → ℤ → ℤ → Span
left h first last = record {
  local_first = pos 0 -ℤ h.minus;
  local_last = negsuc 0;
  global_first = (pos 0 -ℤ h.minus) +ℤ first;
  global_last = first -ℤ pos 1;
}

unfoldable pub middle : Halo → ℤ → ℤ → Span
middle h first last = record {
  local_first = pos 0;
  local_last = last -ℤ first;
  global_first = first;
  global_last = last;
}

unfoldable pub right : Halo → ℤ → ℤ → Span
unfolding middle
right h first last =
    let m = middle h first last in
    record {
      local_first = m.local_last +ℤ pos 1;
      local_last = m.local_last +ℤ h.plus;
      global_first = m.global_last +ℤ pos 1;
      global_last = m.global_last +ℤ h.plus;
    }

abbrev pub spaces : {n : ℕ} → (Halo → ℤ → ℤ → Span) → Vec Halo n → Vec ℤ n → Vec ℤ n → Box2 n
spaces f nil nil nil = nil
spaces f (cons h hs) (cons a first) (cons b last) = cons (f h a b) (spaces f hs first last)

-- `compute_spaces`: every choice of one of the three spaces in each dimension, the first dimension
-- outermost.
unfoldable pub compute_spaces : {n : ℕ} → Box2 n → Box2 n → Box2 n → List (Box2 n)
compute_spaces nil nil nil = nil ∷ []
compute_spaces (cons l ls) (cons m ms) (cons r rs) =
    let rest = compute_spaces ls ms rs in
    List.map (cons l) rest ++ (List.map (cons m) rest ++ List.map (cons r) rest)

-- `ct_pow`
unfoldable pub ct_pow : ℕ → ℕ → ℕ
ct_pow base zero = 1
ct_pow base (suc e) = base * ct_pow base e

-- The loop over `j` that leaves out the domain itself and empty regions.
unfoldable pub filter_used : {n : ℕ} → ℕ → ℕ → List (Box2 n) → List (Box2 n)
filter_used centre j [] = []
filter_used centre j (b ∷ bs) =
    let rest = filter_used centre (j + 1) bs in
    if j == centre
    then rest
    else if Coordinate.ge (local_last b) (local_first b)
    then b ∷ rest
    else rest

-- The periodic wrap of the global side in one dimension.
unfoldable pub wrap_span : ℤ → ℤ → Bool → Span → Span
wrap_span g_first g_last periodic s =
    if periodic
    then (let ext_h = s.global_last -ℤ s.global_first in
        let ext = g_last +ℤ pos 1 -ℤ g_first in
        let offset_l = s.global_first -ℤ g_first in
        let wrapped = (offset_l +ℤ ext) %ℤ ext +ℤ g_first in
        record s { global_first = wrapped; global_last = wrapped +ℤ ext_h })
    else s

unfoldable pub wrap : {n : ℕ} → Vec ℤ n → Vec ℤ n → Vec Bool n → Box2 n → Box2 n
unfolding wrap_span
wrap nil nil nil nil = nil
wrap (cons f fs) (cons l ls) (cons p ps) (cons s b) = cons (wrap_span f l p s) (wrap fs ls ps b)

module _ {DomainId : Type 0} {n : ℕ} (g : HaloGenerator n) (dom : Domain DomainId n) where
  unfoldable pub outer_halos : List (Box2 n)
  unfolding compute_spaces left middle right
  outer_halos =
      compute_spaces (spaces left g.halos dom.first dom.last)
        (spaces middle g.halos dom.first dom.last) (spaces right g.halos dom.first dom.last)

  -- `operator()`
  unfoldable pub generate : List (Box2 n)
  unfolding outer_halos filter_used ct_pow wrap
  generate = List.map (wrap g.first g.last g.periodic) (filter_used (ct_pow 3 n / 2) 0 outer_halos)

-- `intersect`: the global boxes are intersected, and the local side of `a` follows its first corner.
unfoldable pub intersect_span : Span → ℤ → ℤ → Span
intersect_span a first_b last_b =
    let first = max_ℤ a.global_first first_b in
    let last = min_ℤ a.global_last last_b in
    record {
      local_first = a.local_first +ℤ (first -ℤ a.global_first);
      local_last = a.local_first +ℤ (last -ℤ a.global_first);
      global_first = first;
      global_last = last;
    }

unfoldable pub intersect : {n : ℕ} → Box2 n → Vec ℤ n → Vec ℤ n → Box2 n
unfolding intersect_span
intersect nil nil nil = nil
intersect (cons a v) (cons f fs) (cons l ls) = cons (intersect_span a f l) (intersect v fs ls)
