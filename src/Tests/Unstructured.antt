-- ===== src/Tests/Unstructured.antt =====
-- include/ghex/unstructured/user_concepts.hpp and pattern.hpp on concrete inputs.
use ghex.Base.{ℕ, ◌+◌, ◌≡◌, ◌++◌, refl, not, ◌&&◌, List, [], ◌∷◌, some, get_elem?, arith}
use ghex.Communication.Buffers.{}
use ghex.Communication.Memory.{Memory}
use ghex.Unstructured.Data.{IterationSpace, DataDescriptor, address, pack, unpack}
use ghex.Unstructured.Data.Vertices.{unpack-pack_vertex}
use ghex.Unstructured.Domain.{DomainDescriptor, make_domain, generate, contains}
use ghex.Unstructured.Domain.Vertices.{
  Sorted, generate-make_domain, generate-Sorted, generate-local_indices,
}
use ghex.Unstructured.Pattern.{tag_of, vertices_map, send_halo, send_rank, recv_halo}
use ghex.Unstructured.Pattern.Tags.{tag_of-injective}
use ghex.Unstructured.Pattern.Window.{Pairwise}
use ghex.Unstructured.Pattern.Match.{sent, start_of, send_rank-recv_halo}

-- Vertices 3, 1 and 2; of the five vertices that the adjacency names, two are not among them.
abbrev domain : DomainDescriptor
domain = make_domain 0 (3 ∷ 1 ∷ 2 ∷ []) (1 ∷ 7 ∷ 2 ∷ 5 ∷ 7 ∷ 3 ∷ []) 1

halo_of_domain : (generate domain).vertices ≡ 5 ∷ 7 ∷ []
unfolding generate make_domain contains
halo_of_domain = refl

generate-make_domain_example :
    (contains 5 (generate domain).vertices
      ≡ (contains 5 (1 ∷ 7 ∷ 2 ∷ 5 ∷ 7 ∷ 3 ∷ []) && not (contains 5 (3 ∷ 1 ∷ 2 ∷ []))))
    × (domain.vertices ≡ 3 ∷ 1 ∷ 2 ∷ (generate domain).vertices)
generate-make_domain_example =
    generate-make_domain 0 (3 ∷ 1 ∷ 2 ∷ []) (1 ∷ 7 ∷ 2 ∷ 5 ∷ 7 ∷ 3 ∷ []) 1 5

generate-Sorted_example : Sorted (generate domain).vertices
generate-Sorted_example = generate-Sorted 0 (3 ∷ 1 ∷ 2 ∷ []) (1 ∷ 7 ∷ 2 ∷ 5 ∷ 7 ∷ 3 ∷ []) 1

generate-local_indices_example :
    get_elem? (generate domain).vertices 1 ≡ get_elem? domain.vertices 4
unfolding generate make_domain
generate-local_indices_example = generate-local_indices domain 1 4 refl

abbrev sender : ℕ
sender = 3

abbrev receiver : ℕ
receiver = 5

tag_of-injective_example : (sender ≡ sender) × (receiver ≡ receiver)
tag_of-injective_example =
    tag_of-injective sender receiver sender receiver (omega arith) (omega arith) refl

-- The tags of two pairs of domains where an id is 128.
tag_of_collision : tag_of 0 128 ≡ tag_of 1 0
unfolding tag_of
tag_of_collision = refl

-- Another rank has a domain with the halo 8, 2 and one with the halo 1, 9, 3.
abbrev others : List (ℕ × List ℕ)
others = (4, 8 ∷ 2 ∷ []) ∷ (5, 1 ∷ 9 ∷ 3 ∷ []) ∷ []

sent_indices : sent 0 1 (vertices_map 0 3 (3 ∷ 1 ∷ 2 ∷ []) []) 1 1 others 0 ≡ 1 ∷ 2 ∷ 4 ∷ []
unfolding send_rank vertices_map
sent_indices = refl

send_rank-recv_halo_example :
    Pairwise
      (λ l r.
        (v : ℕ) × (get_elem? (3 ∷ 1 ∷ 2 ∷ []) l ≡ some v)
        × (get_elem? ((8 ∷ 7 ∷ []) ++ (1 ∷ 9 ∷ 3 ∷ [])) r ≡ some v))
      (send_halo (vertices_map 0 3 (3 ∷ 1 ∷ 2 ∷ []) []) (1 ∷ 9 ∷ 3 ∷ []) (start_of others 1)).0
      (recv_halo
        (start_of others 1)
        3
        2
        (sent 0 1 (vertices_map 0 3 (3 ∷ 1 ∷ 2 ∷ []) []) 1 1 others 0))
send_rank-recv_halo_example =
    send_rank-recv_halo 0 1 1 1 3 (3 ∷ 1 ∷ 2 ∷ []) others 1 5 (8 ∷ 7 ∷ []) (1 ∷ 9 ∷ 3 ∷ []) refl

abbrev source_field : DataDescriptor
source_field = record {
  domain_id = 0;
  domain_size = 4;
  levels = 2;
  values = 0;
  size_of = 8;
  align_of = 8;
}

abbrev target_field : DataDescriptor
target_field = record {
  domain_id = 1;
  domain_size = 3;
  levels = 3;
  values = 200;
  size_of = 8;
  align_of = 8;
}

abbrev source_space : IterationSpace
source_space = record { local_indices = 1 ∷ 3 ∷ []; levels = 2 }

abbrev target_space : IterationSpace
target_space = record { local_indices = 2 ∷ 0 ∷ []; levels = 2 }

abbrev zeros : Memory
zeros a = 0

abbrev counted : Memory
counted a = a + 7

-- The byte 5 of the second level of vertex 3, which becomes vertex 0.
unpack-pack_vertex_example :
    unpack target_field
      (target_space ∷ [])
      zeros
      (pack source_field (source_space ∷ []) counted zeros 24)
      24
      (address target_field 0 1 + 5)
    ≡ counted (address source_field 3 1 + 5)
unpack-pack_vertex_example =
    unpack-pack_vertex source_field target_field counted zeros zeros 24 source_space target_space 1
      1 5 3 0 refl refl refl (omega arith) ((λ h. omega (arith, h), tt), (tt, tt)) refl refl
      (omega arith) (omega arith)
