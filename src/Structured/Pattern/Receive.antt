-- ===== src/Structured/Pattern/Receive.antt =====
-- include/ghex/structured/pattern.hpp: how often a global point is received.
use ghex.Base.{
  ℕ, ◌+◌, ◌*◌, ◌≡◌, refl, sym, ap, ap₂, ◌∙◌, Bool, true, false, ◌&&◌, List, [], ◌∷◌, ◌++◌, arith,
  Bool-cases, inl, inr,
}
use ghex.Base.Int.{ℤ, leb_ℤ, max_ℤ, min_ℤ, max_ℤ_parts, min_ℤ_parts}
use ghex.Base.Vec.{Vec, nil, cons}
use ghex.Common.Coordinate
use ghex.Structured.Space.{Box2, global_first, global_last}
use ghex.Structured.Regular.HaloGenerator.{intersect}
use ghex.Structured.Pattern.{push, receive_from, receive_halo, receive_halos}

-- Whether the global side of the box contains the point.
abbrev pub holds : {n : ℕ} → Box2 n → Vec ℤ n → Bool
holds nil nil = true
holds (cons s b) (cons x p) = (leb_ℤ s.global_first x && leb_ℤ x s.global_last) && holds b p

abbrev pub bit : Bool → ℕ
bit true = 1
bit false = 0

-- The number of boxes that contain the point.
abbrev pub count : {n : ℕ} → Vec ℤ n → List (Box2 n) → ℕ
count p [] = 0
count p (b ∷ bs) = bit (holds b p) + count p bs

leb-max : (a f x : ℤ) → leb_ℤ (max_ℤ a f) x ≡ leb_ℤ a x && leb_ℤ f x
leb-max a f x = let u = max_ℤ_parts a f in ground (arith, u)

leb-min : (a f x : ℤ) → leb_ℤ x (min_ℤ a f) ≡ leb_ℤ x a && leb_ℤ x f
leb-min a f x = let u = min_ℤ_parts a f in ground (arith, u)

regroup :
    (a f b g v w : Bool) → ((a && f) && (b && g)) && (v && w) ≡ ((a && b) && v) && ((f && g) && w)
regroup true true true true v w = refl
regroup true true true false true w = refl
regroup true true true false false w = refl
regroup true true false g v w = refl
regroup true false true g true w = refl
regroup true false true g false w = refl
regroup true false false g v w = refl
regroup false f b g v w = refl

holds-intersect :
    {n : ℕ} (a b : Box2 n) (p : Vec ℤ n)
    → holds (intersect a (global_first b) (global_last b)) p ≡ holds a p && holds b p
unfolding intersect
holds-intersect nil nil nil = refl
holds-intersect (cons a v) (cons b w) (cons x p) =
    ap₂ ◌&&◌
      (ap₂ ◌&&◌ (leb-max a.global_first b.global_first x) (leb-min a.global_last b.global_last x))
      (holds-intersect v w p)
    ∙ regroup (leb_ℤ a.global_first x) (leb_ℤ b.global_first x) (leb_ℤ x a.global_last)
        (leb_ℤ x b.global_last) (holds v p) (holds w p)

nonempty_of_holds :
    {n : ℕ} (b : Box2 n) (p : Vec ℤ n)
    → holds b p ≡ true
    → Coordinate.le (global_first b) (global_last b) ≡ true
unfolding Coordinate.le
nonempty_of_holds nil nil h = refl
nonempty_of_holds (cons s b) (cons x p) h = ground (arith, nonempty_of_holds b p)

count-append :
    {n : ℕ} (p : Vec ℤ n) (bs cs : List (Box2 n)) → count p (bs ++ cs) ≡ count p bs + count p cs
count-append p [] cs = omega arith
count-append p (b ∷ bs) cs = omega (arith, count-append p bs cs)

module _ {Key : Type 0} {n : ℕ} (p : Vec ℤ n) where
  -- The same over all entries of a receive map, and over the domains.
  abbrev pub count_received : List (Key × List (Box2 n)) → ℕ
  count_received [] = 0
  count_received (e ∷ es) = count p e.1 + count_received es

  abbrev pub count_domains : List (Key × Box2 n) → ℕ
  count_domains [] = 0
  count_domains (e ∷ es) = bit (holds e.1 p) + count_domains es

module _ {Key : Type 0} {n : ℕ} (less : Key → Key → Bool) (p : Vec ℤ n) where
  count_received-push :
      (k : Key) (b : Box2 n) (m : List (Key × List (Box2 n)))
      → count_received p (push less k b m) ≡ count_received p m + bit (holds b p)
  unfolding push
  count_received-push k b [] = omega arith
  count_received-push k b ((l, bs) ∷ m) =
      ground (arith, count_received-push k b m, count-append p bs (b ∷ []))

  count_received-receive_from :
      (h : Box2 n) (e : Key × Box2 n) (m : List (Key × List (Box2 n)))
      → count_received p (receive_from less h e m)
        ≡ count_received p m + bit (holds h p && holds e.1 p)
  unfolding receive_from
  count_received-receive_from h (k, e) m =
      let x = intersect h (global_first e) (global_last e) in
      let both = holds-intersect h e p in
      elim (Bool-cases (Coordinate.le (global_first x) (global_last x))) [
        | inl v ↦ rw (v, receive_from) (omega (arith, count_received-push k x m, ap bit both))
        | inr v ↦
            rw (v, receive_from)
              (elim (Bool-cases (holds x p)) [
                | inl w ↦ absurd (ground (arith, nonempty_of_holds x p w, v))
                | inr w ↦ omega (arith, ap bit (sym both ∙ w))
              ])
      ]

  count_received-receive_halo :
      (h : Box2 n) (es : List (Key × Box2 n)) (m : List (Key × List (Box2 n)))
      → count_received p (receive_halo less h es m)
        ≡ count_received p m + bit (holds h p) * count_domains p es
  unfolding receive_halo
  count_received-receive_halo h [] m = omega arith
  count_received-receive_halo h (e ∷ es) m =
      let from = count_received-receive_from h e m in
      let ih = count_received-receive_halo h es (receive_from less h e m) in
      elim (Bool-cases (holds h p)) [
        | inl v ↦ ground (arith, from, ih)
        | inr v ↦ ground (arith, from, ih)
      ]

  -- For any receive halos so far: adding a domain's halos, the number of receive halos that contain a
  -- global point, over all keys, grows by the number of
  -- the domain's halos that contain it times the number of domains that contain it.
  pub count_received-receive_halos :
      (hs : List (Box2 n)) (es : List (Key × Box2 n)) (m : List (Key × List (Box2 n)))
      → count_received p (receive_halos less hs es m)
        ≡ count_received p m + count p hs * count_domains p es
  unfolding receive_halos
  count_received-receive_halos [] es m = omega arith
  count_received-receive_halos (h ∷ hs) es m = grind (
    arith,
    count_received-receive_halo h es m,
    count_received-receive_halos hs es (receive_halo less h es m),
  )
