-- ===== src/Unstructured/Domain/Vertices.antt =====
-- include/ghex/unstructured/user_concepts.hpp: which vertices are in the halo, and where.
use mathlib.Core.Option.{some-injective}
use native.Mathlib.Decide.{ℕ_discrete}
use ghex.Base.{
  ℕ, zero, suc, ◌+◌, ◌-◌, ◌<◌, ◌≡◌, refl, sym, subst, All, ap, ap₂, ◌∙◌, ◌||◌, ◌&&◌, not, List, [],
  ◌∷◌, ◌++◌, length, get_elem?, some, arith, Bool-cases, inl, inr, ltb, ◌==◌,
}
use ghex.Unstructured.Domain.{
  DomainDescriptor, insert, set_of, contains, set_difference, set_halo_vertices, make_domain, drop,
  indices_from, generate,
}

contains-insert : (v w : ℕ) (s : List ℕ) → contains v (insert w s) ≡ (v == w || contains v s)
unfolding contains insert
contains-insert v w [] = refl
contains-insert v w (x ∷ s) = ground (arith, contains-insert v w s)

contains-set_of : (v : ℕ) (s : List ℕ) → contains v (set_of s) ≡ contains v s
unfolding set_of contains
contains-set_of v [] = refl
contains-set_of v (x ∷ s) =
    contains-insert v x (set_of s) ∙ ap (λ b. v == x || b) (contains-set_of v s)

contains-set_difference :
    (v : ℕ) (s t : List ℕ) → contains v (set_difference s t) ≡ (contains v s && not (contains v t))
unfolding set_difference contains
contains-set_difference v [] t = refl
contains-set_difference v (x ∷ s) t = elim (ℕ_discrete v x) [
  | yes e ↦ ground (arith, contains-set_difference v s t, ap (λ k. contains k t) e)
  | no n ↦ ground (arith, contains-set_difference v s t, n)
]

drop-append : (vs ws : List ℕ) → drop (length vs) (vs ++ ws) ≡ ws
unfolding drop
drop-append [] ws = refl
drop-append (v ∷ vs) ws = drop-append vs ws

-- The vertices of a generated halo are those that the adjacency names and that are not among the
-- domain's own, given by a list in any order and with any repetitions; and the domain keeps its own
-- vertices, in their order, before the halo.
pub generate-make_domain :
    (id : ℕ) (vertices adjncy : List ℕ) (levels v : ℕ)
    → (contains v (generate (make_domain id vertices adjncy levels)).vertices
        ≡ (contains v adjncy && not (contains v vertices)))
      × ((make_domain id vertices adjncy levels).vertices
          ≡ vertices ++ (generate (make_domain id vertices adjncy levels)).vertices)
unfolding generate make_domain set_halo_vertices
generate-make_domain id vertices adjncy levels v =
    let halo = set_difference (set_of adjncy) (set_of vertices) in
    let same : drop (length vertices) (vertices ++ halo) ≡ halo = drop-append vertices halo in
    (
      ap (contains v) same
          ∙ contains-set_difference v (set_of adjncy) (set_of vertices)
          ∙ ap₂ (λ a b. a && not b) (contains-set_of v adjncy) (contains-set_of v vertices),
      ap (λ h. vertices ++ h) (sym same),
    )

-- The set's order, in which no element comes twice.
abbrev pub Sorted : List ℕ → Type 0
Sorted [] = Unit
Sorted (v ∷ s) = All (λ w. v < w) s × Sorted s

insert-All : (P : ℕ → Type 0) (v : ℕ) (s : List ℕ) → P v → All P s → All P (insert v s)
unfolding insert
insert-All P v [] p h = (p, tt)
insert-All P v (w ∷ s) p h = elim (Bool-cases (ltb v w)) [
  | inl e ↦ rw e (p, h)
  | inr e ↦ elim (Bool-cases (ltb w v)) [
    | inl f ↦ rw (e, f) (h.0, insert-All P v s p h.1)
    | inr f ↦ rw (e, f) h
  ]
]

All-weaken : (v w : ℕ) (s : List ℕ) → v < w → All (λ x. w < x) s → All (λ x. v < x) s
All-weaken v w [] lt h = tt
All-weaken v w (x ∷ s) lt h = let below = h.0 in (omega (arith, below), All-weaken v w s lt h.1)

insert-Sorted : (v : ℕ) (s : List ℕ) → Sorted s → Sorted (insert v s)
unfolding insert
insert-Sorted v [] h = (tt, tt)
insert-Sorted v (w ∷ s) h = elim (Bool-cases (ltb v w)) [
  | inl e ↦ let lt : v < w = ground (arith, e) in rw e ((lt, All-weaken v w s lt h.0), h)
  | inr e ↦ elim (Bool-cases (ltb w v)) [
    | inl f ↦
        let lt : w < v = ground (arith, f) in
        rw (e, f) (insert-All (λ x. w < x) v s lt h.0, insert-Sorted v s h.1)
    | inr f ↦ rw (e, f) h
  ]
]

set_of-Sorted : (s : List ℕ) → Sorted (set_of s)
unfolding set_of
set_of-Sorted [] = tt
set_of-Sorted (v ∷ s) = insert-Sorted v (set_of s) (set_of-Sorted s)

set_difference-All : (P : ℕ → Type 0) (s t : List ℕ) → All P s → All P (set_difference s t)
unfolding set_difference
set_difference-All P [] t h = tt
set_difference-All P (v ∷ s) t h = elim (Bool-cases (contains v t)) [
  | inl e ↦ rw e (set_difference-All P s t h.1)
  | inr e ↦ rw e (h.0, set_difference-All P s t h.1)
]

set_difference-Sorted : (s t : List ℕ) → Sorted s → Sorted (set_difference s t)
unfolding set_difference
set_difference-Sorted [] t h = tt
set_difference-Sorted (v ∷ s) t h = elim (Bool-cases (contains v t)) [
  | inl e ↦ rw e (set_difference-Sorted s t h.1)
  | inr e ↦ rw e (set_difference-All (λ w. v < w) s t h.0, set_difference-Sorted s t h.1)
]

-- The vertices of a generated halo are in increasing order, none twice.
pub generate-Sorted :
    (id : ℕ) (vertices adjncy : List ℕ) (levels : ℕ)
    → Sorted (generate (make_domain id vertices adjncy levels)).vertices
unfolding generate make_domain set_halo_vertices
generate-Sorted id vertices adjncy levels =
    subst Sorted (sym (drop-append vertices (set_difference (set_of adjncy) (set_of vertices))))
      (set_difference-Sorted (set_of adjncy) (set_of vertices) (set_of-Sorted adjncy))

get_elem?-drop : (n k : ℕ) (vs : List ℕ) → get_elem? (drop n vs) k ≡ get_elem? vs (n + k)
unfolding drop
get_elem?-drop zero k vs = ap (get_elem? vs) (omega arith)
get_elem?-drop (suc n) k [] = refl
get_elem?-drop (suc n) k (v ∷ vs) =
    get_elem?-drop n k vs ∙ ap (get_elem? (v ∷ vs)) {x = suc (n + k)} {y = suc n + k} (omega arith)

get_elem?-indices_from : (i n k l : ℕ) → get_elem? (indices_from i n) k ≡ some l → l ≡ i + k
unfolding indices_from
get_elem?-indices_from i zero k l e = cc
get_elem?-indices_from i (suc n) zero l e = omega (arith, some-injective i l e)
get_elem?-indices_from i (suc n) (suc k) l e = omega (arith, get_elem?-indices_from (i + 1) n k l e)

-- Each local index of a generated halo is, in the domain, the index of the halo's vertex at the same
-- place.
pub generate-local_indices :
    (d : DomainDescriptor) (k l : ℕ)
    → get_elem? (generate d).local_indices k ≡ some l
    → get_elem? (generate d).vertices k ≡ get_elem? d.vertices l
unfolding generate
generate-local_indices d k l e =
    get_elem?-drop d.inner_size k d.vertices
    ∙ ap (get_elem? d.vertices)
        (sym (get_elem?-indices_from d.inner_size (d.size - d.inner_size) k l e))
