-- ===== src/Unstructured/Pattern/Match.antt =====
-- include/ghex/unstructured/pattern.hpp: the send halo of one domain and the receive halo of another.
use mathlib.Core.Option.{some-injective}
use native.Mathlib.Decide.{ℕ_discrete}
use ghex.Base.{
  ℕ, zero, suc, ◌+◌, ◌-◌, ◌≤◌, ◌≡◌, ◌⊎◌, refl, sym, ap, ap₂, subst, ◌∙◌, List, [], ◌∷◌, ◌++◌, map,
  some, length, get_elem?, get_elem?-append_right, arith, Option-cases, inl, inr, ltb,
}
use ghex.Base.OrderedMap.{lookup, upsert}
use ghex.Base.NatMap.{insert-ne, insert-old, insert-top}
use ghex.Unstructured.Domain.{drop}
use ghex.Unstructured.Pattern.{vertices_map, take, send_halo, send_rank, recv_halo}
use ghex.Unstructured.Pattern.Window.{
  Pairwise, Pairwise-weaken, SameVertex, recv_halo-append, recv_halo-outside, recv_halo-inside,
  append-nil,
}

-- The domains of a rank, each with its id and its halo, as the rank's reduced halo gives them.
abbrev pub concat : List (ℕ × List ℕ) → List ℕ
concat [] = []
concat ((id, h) ∷ ds) = h ++ concat ds

abbrev pub sizes : List (ℕ × List ℕ) → List (ℕ × ℕ)
sizes ds = map (λ d. (d.0, length d.1)) ds

-- Where the halo of the domain at an index starts.
abbrev pub start_of : List (ℕ × List ℕ) → ℕ → ℕ
start_of [] k = 0
start_of ((id, h) ∷ ds) zero = 0
start_of ((id, h) ∷ ds) (suc k) = length h + start_of ds k

take-length : (h t : List ℕ) → take (length h) (h ++ t) ≡ h
unfolding take
take-length [] t = refl
take-length (x ∷ h) t = ap (λ s. x ∷ s) (take-length h t)

drop-length : (h t : List ℕ) → drop (length h) (h ++ t) ≡ t
unfolding drop
drop-length [] t = refl
drop-length (x ∷ h) t = drop-length h t

module _ (my_id levels : ℕ) (vmap : List (ℕ × ℕ)) (rank address : ℕ) where
  -- The indices that a domain sends to all domains of another rank.
  abbrev pub sent : List (ℕ × List ℕ) → ℕ → List ℕ
  sent ds at = (send_rank my_id levels vmap rank address (sizes ds) (concat ds) at).1

  sent-cons :
      (id : ℕ) (h : List ℕ) (ds : List (ℕ × List ℕ)) (at : ℕ)
      → sent ((id, h) ∷ ds) at ≡ (send_halo vmap h at).1 ++ sent ds (at + length h)
  unfolding send_rank
  sent-cons id h ds at =
      ap₂
        (λ x y.
          (send_halo vmap x at).1
          ++ (send_rank my_id levels vmap rank address (sizes ds) y (at + length h)).1)
        (take-length h (concat ds)) (drop-length h (concat ds))

  sent-outside :
      (s n i : ℕ) (ds : List (ℕ × List ℕ)) (at : ℕ) → s + n ≤ at → recv_halo s n i (sent ds at) ≡ []
  unfolding send_rank recv_halo
  sent-outside s n i [] at o = refl
  sent-outside s n i ((id, h) ∷ ds) at o =
      ap (recv_halo s n i) (sent-cons id h ds at)
      ∙ recv_halo-append s n i (send_halo vmap h at).1 (sent ds (at + length h))
      ∙ ap₂ (λ x y. x ++ y) (recv_halo-outside s n i vmap h at (inr o))
          (sent-outside s n i ds (at + length h) (omega arith))

  -- Of all that the domain sends, the window of one halo takes what is sent for that halo.
  recv_halo-sent :
      (ds : List (ℕ × List ℕ)) (at k id : ℕ) (h : List ℕ) (s i : ℕ)
      → get_elem? ds k ≡ some (id, h)
      → s ≡ at + start_of ds k
      → recv_halo s (length h) i (sent ds at) ≡ recv_halo s (length h) i (send_halo vmap h s).1
  recv_halo-sent [] at k id h s i e z = cc
  recv_halo-sent ((jd, g) ∷ ds) at zero id h s i e z =
      let same = ap (λ d. d.1) (some-injective (jd, g) (id, h) e) in
      subst
        (λ x.
          recv_halo s (length x) i (sent ((jd, g) ∷ ds) at)
          ≡ recv_halo s (length x) i (send_halo vmap x s).1)
        same
        (ap (recv_halo s (length g) i) (sent-cons jd g ds at)
          ∙ recv_halo-append s (length g) i (send_halo vmap g at).1 (sent ds (at + length g))
          ∙ ap (λ y. recv_halo s (length g) i (send_halo vmap g at).1 ++ y)
              (sent-outside s (length g) i ds (at + length g) (omega arith))
          ∙ append-nil (recv_halo s (length g) i (send_halo vmap g at).1)
          ∙ ap (λ a. recv_halo s (length g) i (send_halo vmap g a).1) {x = at} {y = s}
              (omega arith))
  recv_halo-sent ((jd, g) ∷ ds) at (suc k) id h s i e z =
      ap (recv_halo s (length h) i) (sent-cons jd g ds at)
      ∙ recv_halo-append s (length h) i (send_halo vmap g at).1 (sent ds (at + length g))
      ∙ ap (λ y. y ++ recv_halo s (length h) i (sent ds (at + length g)))
          (recv_halo-outside s (length h) i vmap g at (inl (omega arith)))
      ∙ recv_halo-sent ds (at + length g) k id h s i e (omega arith)

-- The inner vertices of a domain by their local indices.
vertices_map-lookup :
    (i n : ℕ) (vs : List ℕ) (m : List (ℕ × ℕ)) (v l : ℕ)
    → lookup ltb v (vertices_map i n vs m) ≡ some l
    → (lookup ltb v m ≡ some l) ⊎ ((k : ℕ) × (l ≡ i + k) × (get_elem? vs k ≡ some v))
unfolding vertices_map
vertices_map-lookup i zero vs m v l e = inl e
vertices_map-lookup i (suc n) [] m v l e = inl e
vertices_map-lookup i (suc n) (w ∷ vs) m v l e =
    elim (vertices_map-lookup (i + 1) n vs (upsert ltb w i (λ l. l) m) v l e) [
      | inr (k, z, g) ↦ inr (suc k, omega (arith, z), g)
      | inl f ↦ elim (ℕ_discrete v w) [
        | no ne ↦ inl (sym (insert-ne w v i m ne) ∙ f)
        | yes same ↦ elim (Option-cases (lookup ltb w m)) [
          | inl none_there ↦
              inr (0, omega (arith, insert-top w i m none_there v l same f), ap some (sym same))
          | inr (u, there) ↦ inl (sym (insert-old w u i m there v) ∙ f)
        ]
      ]
    ]

vertices_map-get :
    (n : ℕ) (vs : List ℕ) (v l : ℕ)
    → lookup ltb v (vertices_map 0 n vs []) ≡ some l
    → get_elem? vs l ≡ some v
unfolding lookup
vertices_map-get n vs v l f = elim (vertices_map-lookup 0 n vs [] v l f) [
  | inl nothing ↦ cc
  | inr (k, z, g) ↦ ap (get_elem? vs) {x = l} {y = k} (omega (arith, z)) ∙ g
]

-- Two domains: the first sends to all domains `ds` of the second's rank, and the second, at index `k`
-- of that rank, takes from it what is in the window of its halo. The first's send halo for the second
-- and the second's receive halo from it have as many local indices; and of each two at the same
-- place, the first's vertex and the second's are one, where the second has the vertices of its halo
-- after its own.
pub send_rank-recv_halo :
    (my_id levels rank address inner_size : ℕ) (vertices : List ℕ) (ds : List (ℕ × List ℕ))
    (k id : ℕ) (own halo : List ℕ)
    → get_elem? ds k ≡ some (id, halo)
    → Pairwise
        (λ l r. (v : ℕ) × (get_elem? vertices l ≡ some v) × (get_elem? (own ++ halo) r ≡ some v))
        (send_halo (vertices_map 0 inner_size vertices []) halo (start_of ds k)).0
        (recv_halo
          (start_of ds k)
          (length halo)
          (length own)
          (sent my_id levels (vertices_map 0 inner_size vertices []) rank address ds 0))
send_rank-recv_halo my_id levels rank address n vertices ds k id own halo e =
    let start = start_of ds k in
    let vmap = vertices_map 0 n vertices [] in
    let base = start - start + length own in
    subst
      (Pairwise
        (λ l r. (v : ℕ) × (get_elem? vertices l ≡ some v) × (get_elem? (own ++ halo) r ≡ some v))
        (send_halo vmap halo start).0)
      (sym (
        recv_halo-sent my_id levels vmap rank address ds 0 k id halo start (length own) e
          (omega arith)))
      (Pairwise-weaken (SameVertex vmap halo base)
        (λ l r. (v : ℕ) × (get_elem? vertices l ≡ some v) × (get_elem? (own ++ halo) r ≡ some v))
        (send_halo vmap halo start).0
        (recv_halo start (length halo) (length own) (send_halo vmap halo start).1)
        (λ l r (m, v, z, g, f). (
          v,
          vertices_map-get n vertices v l f,
          get_elem?-append_right own halo m r (omega (arith, z)) ∙ g,
        ))
        (recv_halo-inside start (length halo) (length own) vmap halo start (omega arith)
          (omega arith)))
