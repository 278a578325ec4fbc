-- ===== src/Unstructured/Domain.antt =====
-- include/ghex/unstructured/user_concepts.hpp: the domain descriptor, which finds its halo vertices, and
-- the halo generator. A `std::set` is the list of its elements in their order.
pub mod Vertices
use ghex.Base.{
  ℕ, zero, suc, ◌+◌, ◌-◌, Bool, true, false, ◌||◌, List, [], ◌∷◌, ◌++◌, length, if◌then◌else◌, ltb,
  ◌==◌,
}

pub record DomainDescriptor : Type 0 where
  pub id : ℕ
  pub vertices : List ℕ
  pub adjncy : List ℕ
  pub inner_size : ℕ
  pub size : ℕ
  pub levels : ℕ

-- `std::set::insert`, and a set made of a range.
unfoldable pub insert : ℕ → List ℕ → List ℕ
insert v [] = v ∷ []
insert v (w ∷ s) =
    let rest = insert v s in if ltb v w then v ∷ w ∷ s else if ltb w v then w ∷ rest else w ∷ s

unfoldable pub set_of : List ℕ → List ℕ
unfolding insert
set_of [] = []
set_of (v ∷ vs) = insert v (set_of vs)

unfoldable pub contains : ℕ → List ℕ → Bool
contains v [] = false
contains v (w ∷ s) = v == w || contains v s

-- `std::set_difference`
unfoldable pub set_difference : List ℕ → List ℕ → List ℕ
unfolding contains
set_difference [] s = []
set_difference (v ∷ vs) s =
    let rest = set_difference vs s in if contains v s then rest else v ∷ rest

unfoldable pub set_halo_vertices : DomainDescriptor → DomainDescriptor
unfolding set_difference set_of
set_halo_vertices d =
    let halo_vertices_set = set_difference (set_of d.adjncy) (set_of d.vertices) in
    let vertices = d.vertices ++ halo_vertices_set in
    record d { vertices = vertices; inner_size = length d.vertices; size = length vertices }

-- The constructor from vertices and adjacency.
unfoldable pub make_domain : ℕ → List ℕ → List ℕ → ℕ → DomainDescriptor
unfolding set_halo_vertices
make_domain id vertices adjncy levels = set_halo_vertices (record {
  id = id;
  vertices = vertices;
  adjncy = adjncy;
  inner_size = 0;
  size = 0;
  levels = levels;
})

-- The constructor from a list of vertices, each with its neighbors: the loop over the elements.
unfoldable pub append_elements : List (ℕ × List ℕ) → List ℕ × List ℕ → List ℕ × List ℕ
append_elements [] s = s
append_elements ((v, neighbors) ∷ es) s = append_elements es (s.0 ++ (v ∷ []), s.1 ++ neighbors)

unfoldable pub make_map_domain : ℕ → List (ℕ × List ℕ) → ℕ → DomainDescriptor
unfolding append_elements set_halo_vertices
make_map_domain id v_map levels =
    let elements = append_elements v_map ([], []) in
    set_halo_vertices (record {
      id = id;
      vertices = elements.0;
      adjncy = elements.1;
      inner_size = 0;
      size = 0;
      levels = levels;
    })

-- The constructor from the number of inner vertices.
unfoldable pub make_sized_domain : ℕ → List ℕ → ℕ → ℕ → DomainDescriptor
make_sized_domain id vertices inner_size levels = record {
  id = id;
  vertices = vertices;
  adjncy = [];
  inner_size = inner_size;
  size = length vertices;
  levels = levels;
}

pub record Halo : Type 0 where
  pub vertices : List ℕ
  pub local_indices : List ℕ
  pub levels : ℕ

unfoldable pub drop : ℕ → List ℕ → List ℕ
drop zero vs = vs
drop (suc n) [] = []
drop (suc n) (v ∷ vs) = drop n vs

-- The loop that fills `local_indices`: `n` entries from `i` on.
unfoldable pub indices_from : ℕ → ℕ → List ℕ
indices_from i zero = []
indices_from i (suc n) = i ∷ indices_from (i + 1) n

-- `halo_generator::operator()`
unfoldable pub generate : DomainDescriptor → Halo
unfolding drop indices_from
generate d = record {
  vertices = drop d.inner_size d.vertices;
  local_indices = indices_from d.inner_size (d.size - d.inner_size);
  levels = d.levels;
}
