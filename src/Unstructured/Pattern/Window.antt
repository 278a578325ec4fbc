-- ===== src/Unstructured/Pattern/Window.antt =====
-- include/ghex/unstructured/pattern.hpp: the indices in the window of one halo.
use mathlib.Core.Option.{}
use native.Mathlib.Decide.{}
use ghex.Base.{
  ℕ, suc, ◌+◌, ◌-◌, ◌<◌, ◌≤◌, ◌≡◌, ◌⊎◌, refl, sym, ap, subst, true, false, ◌&&◌, List, [], ◌∷◌,
  ◌++◌, none, some, length, get_elem?, arith, Bool-cases, Option-cases, inl, inr, ltb, leb,
}
use ghex.Base.OrderedMap.{lookup}
use ghex.Base.NatMap.{}
use ghex.Unstructured.Domain.{}
use ghex.Unstructured.Pattern.{send_halo, recv_halo}

pub recv_halo-append :
    (s n i : ℕ) (xs ys : List ℕ)
    → recv_halo s n i (xs ++ ys) ≡ recv_halo s n i xs ++ recv_halo s n i ys
unfolding recv_halo
recv_halo-append s n i [] ys = refl
recv_halo-append s n i (x ∷ xs) ys = elim (Bool-cases (leb s x && ltb x (s + n))) [
  | inl e ↦ rw (e, recv_halo-append s n i xs ys) refl
  | inr e ↦ rw (e, recv_halo-append s n i xs ys) refl
]

-- The window of a halo has the indices of that halo, and no other's.
pub recv_halo-outside :
    (s n i : ℕ) (vmap : List (ℕ × ℕ)) (h : List ℕ) (at : ℕ)
    → (at + length h ≤ s) ⊎ (s + n ≤ at)
    → recv_halo s n i (send_halo vmap h at).1 ≡ []
unfolding recv_halo send_halo
recv_halo-outside s n i vmap [] at o = refl
recv_halo-outside s n i vmap (v ∷ h) at o = elim (Option-cases (lookup ltb v vmap)) [
  | inl e ↦ rw (e, send_halo) (recv_halo-outside s n i vmap h (at + 1) (grind (arith, o)))
  | inr (l, e) ↦
      let out : (leb s at && ltb at (s + n)) ≡ false = ground (arith, o) in
      rw (e, send_halo, out) (recv_halo-outside s n i vmap h (at + 1) (grind (arith, o)))
]

-- Two lists of the same length whose elements are related one by one.
abbrev pub Pairwise : (ℕ → ℕ → Type 0) → List ℕ → List ℕ → Type 0
Pairwise P [] [] = Unit
Pairwise P (l ∷ ls) [] = ⊥
Pairwise P [] (r ∷ rs) = ⊥
Pairwise P (l ∷ ls) (r ∷ rs) = P l r × Pairwise P ls rs

pub Pairwise-weaken :
    (P Q : ℕ → ℕ → Type 0) (ls rs : List ℕ)
    → ((l r : ℕ) → P l r → Q l r)
    → Pairwise P ls rs
    → Pairwise Q ls rs
Pairwise-weaken P Q [] [] f h = tt
Pairwise-weaken P Q (l ∷ ls) [] f h = absurd h
Pairwise-weaken P Q [] (r ∷ rs) f h = absurd h
Pairwise-weaken P Q (l ∷ ls) (r ∷ rs) f h = (f l r h.0, Pairwise-weaken P Q ls rs f h.1)

-- A local index to send and one to receive that stand for one vertex of a halo.
abbrev pub SameVertex : List (ℕ × ℕ) → List ℕ → ℕ → ℕ → ℕ → Type 0
SameVertex vmap h base l r =
    (k : ℕ) × (v : ℕ) × (r ≡ base + k) × (get_elem? h k ≡ some v) × (lookup ltb v vmap ≡ some l)

send_halo-skip :
    (vmap : List (ℕ × ℕ)) (v : ℕ) (h : List ℕ) (at : ℕ)
    → lookup ltb v vmap ≡ none
    → send_halo vmap (v ∷ h) at ≡ send_halo vmap h (at + 1)
unfolding send_halo
send_halo-skip vmap v h at e = rw (e, send_halo) refl

send_halo-take :
    (vmap : List (ℕ × ℕ)) (v : ℕ) (h : List ℕ) (at l : ℕ)
    → lookup ltb v vmap ≡ some l
    → send_halo vmap (v ∷ h) at
      ≡ (l ∷ (send_halo vmap h (at + 1)).0, at ∷ (send_halo vmap h (at + 1)).1)
unfolding send_halo
send_halo-take vmap v h at l e = rw (e, send_halo) refl

recv_halo-take :
    (s n i j : ℕ) (js : List ℕ)
    → s ≤ j
    → j < s + n
    → recv_halo s n i (j ∷ js) ≡ (j - s + i) ∷ recv_halo s n i js
unfolding recv_halo
recv_halo-take s n i j js lo hi =
    let inside : (leb s j && ltb j (s + n)) ≡ true = ground arith in rw inside refl

pub recv_halo-inside :
    (s n i : ℕ) (vmap : List (ℕ × ℕ)) (h : List ℕ) (at : ℕ)
    → s ≤ at
    → at + length h ≤ s + n
    → Pairwise
        (SameVertex vmap h (at - s + i))
        (send_halo vmap h at).0
        (recv_halo s n i (send_halo vmap h at).1)
unfolding recv_halo send_halo
recv_halo-inside s n i vmap [] at lo hi = tt
recv_halo-inside s n i vmap (v ∷ h) at lo hi =
    let later : Pairwise (SameVertex vmap (v ∷ h) (at - s + i)) (send_halo vmap h (at + 1)).0
        (recv_halo s n i (send_halo vmap h (at + 1)).1) =
      Pairwise-weaken (SameVertex vmap h (at + 1 - s + i)) (SameVertex vmap (v ∷ h) (at - s + i))
        (send_halo vmap h (at + 1)).0 (recv_halo s n i (send_halo vmap h (at + 1)).1)
        (λ l r (k, w, e, g, f). (suc k, w, omega (arith, e), g, f))
        (recv_halo-inside s n i vmap h (at + 1) (omega arith) (omega arith)) in
    elim (Option-cases (lookup ltb v vmap)) [
      | inl e ↦
          subst (λ x. Pairwise (SameVertex vmap (v ∷ h) (at - s + i)) x.0 (recv_halo s n i x.1))
            (sym (send_halo-skip vmap v h at e)) later
      | inr (l, e) ↦
          subst (λ x. Pairwise (SameVertex vmap (v ∷ h) (at - s + i)) x.0 (recv_halo s n i x.1))
            (sym (send_halo-take vmap v h at l e))
            (subst
              (Pairwise (SameVertex vmap (v ∷ h) (at - s + i)) (l ∷ (send_halo vmap h (at + 1)).0))
              (sym (recv_halo-take s n i at (send_halo vmap h (at + 1)).1 lo (omega arith)))
              ((0, v, omega arith, refl, e), later))
    ]

pub append-nil : (xs : List ℕ) → xs ++ [] ≡ xs
append-nil [] = refl
append-nil (x ∷ xs) = ap (λ t. x ∷ t) (append-nil xs)
