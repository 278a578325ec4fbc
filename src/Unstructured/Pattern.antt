-- ===== src/Unstructured/Pattern.antt =====
-- include/ghex/unstructured/pattern.hpp: the pattern of an unstructured grid without hints on the
-- neighbors, as each rank computes it from what the other ranks send. What `all_gather` and
-- `all_to_allv` return is a parameter.
pub mod Window
pub mod Match
pub mod Tags
use ghex.Base.{
  ℕ, zero, suc, ◌+◌, ◌-◌, ◌*◌, ◌^◌, Bool, true, false, ◌&&◌, List, [], ◌∷◌, ◌++◌, Option, none,
  some, length, if◌then◌else◌, ltb, leb, ◌==◌,
}
use ghex.Base.OrderedMap.{lookup, upsert}
use ghex.Communication.Buffers.{ExtendedDomainId}
use ghex.Unstructured.Data.{IterationSpace}
use ghex.Unstructured.Domain.{DomainDescriptor, drop}

-- `extended_domain_id_type::operator<`
unfoldable pub less : ExtendedDomainId → ExtendedDomainId → Bool
less a b =
    if ltb a.address b.address
    then true
    else if a.address == b.address
    then ltb a.tag b.tag
    else false

-- `(a << 7) + b`
unfoldable pub tag_of : ℕ → ℕ → ℕ
tag_of a b = a * 2 ^ 7 + b

-- `d_vertices_map`: the loop over the inner vertices, from the local index `i` on. An entry that is
-- there stays.
unfoldable pub vertices_map : ℕ → ℕ → List ℕ → List (ℕ × ℕ) → List (ℕ × ℕ)
unfolding upsert
vertices_map i zero vs m = m
vertices_map i (suc n) [] m = m
vertices_map i (suc n) (v ∷ vs) m = vertices_map (i + 1) n vs (upsert ltb v i (λ l. l) m)

unfoldable pub take : ℕ → List ℕ → List ℕ
take zero xs = []
take (suc n) [] = []
take (suc n) (x ∷ xs) = x ∷ take n xs

-- The loop over the vertices of one halo, from `rank_local_idx` on: the local indices to send, and
-- the indices that the receiver is told.
unfoldable pub send_halo : List (ℕ × ℕ) → List ℕ → ℕ → List ℕ × List ℕ
unfolding lookup
send_halo vmap [] rank_local_idx = ([], [])
send_halo vmap (v ∷ halo) rank_local_idx =
    let rest = send_halo vmap halo (rank_local_idx + 1) in
    elim (lookup ltb v vmap) [ none ↦ rest | some l ↦ (l ∷ rest.0, rank_local_idx ∷ rest.1) ]

-- A halo of the pattern where the iteration space is not empty.
unfoldable pub add_halo :
    ExtendedDomainId
    → List ℕ
    → ℕ
    → List (ExtendedDomainId × IterationSpace)
    → List (ExtendedDomainId × IterationSpace)
add_halo id [] levels halos = halos
add_halo id (l ∷ is) levels halos = (id, record { local_indices = l ∷ is; levels = levels }) ∷ halos

-- The loop over the domains of another rank, given by their ids and halo sizes, and by the rank's
-- reduced halo: the send halos, in the order in which they are inserted, and the indices to send.
module _ (my_id levels : ℕ) (vmap : List (ℕ × ℕ)) (other_rank other_address : ℕ) where
  unfoldable pub send_rank :
      List (ℕ × ℕ) → List ℕ → ℕ → List (ExtendedDomainId × IterationSpace) × List ℕ
  unfolding send_halo take drop add_halo tag_of
  send_rank [] reduced_halo rank_local_idx = ([], [])
  send_rank ((other_id, halo_size) ∷ ds) reduced_halo rank_local_idx =
      let rest = send_rank ds (drop halo_size reduced_halo) (rank_local_idx + halo_size) in
      let sent = send_halo vmap (take halo_size reduced_halo) rank_local_idx in
      (
        add_halo
            (record {
              id = other_id;
              mpi_rank = other_rank;
              address = other_address;
              tag = tag_of my_id other_id;
            })
            sent.0 levels rest.0,
        sent.1 ++ rest.1,
      )

-- The loop over the indices received from one domain: those in the window of the halo that starts at
-- `start`.
unfoldable pub recv_halo : ℕ → ℕ → ℕ → List ℕ → List ℕ
recv_halo start halo_size inner_size [] = []
recv_halo start halo_size inner_size (j ∷ js) =
    let rest = recv_halo start halo_size inner_size js in
    if leb start j && ltb j (start + halo_size) then (j - start + inner_size) ∷ rest else rest

-- The loop over the domains of another rank, given by their ids and counts, and by the indices
-- received from the rank.
module _ (my_id levels start halo_size inner_size other_rank other_address : ℕ) where
  unfoldable pub recv_rank : List (ℕ × ℕ) → List ℕ → List (ExtendedDomainId × IterationSpace)
  unfolding recv_halo take drop add_halo tag_of
  recv_rank [] indices = []
  recv_rank ((other_id, count) ∷ ds) indices =
      add_halo
        (record {
          id = other_id;
          mpi_rank = other_rank;
          address = other_address;
          tag = tag_of other_id my_id;
        })
        (recv_halo start halo_size inner_size (take count indices)) levels
        (recv_rank ds (drop count indices))
