-- ===== src/Tests/CubedSphere.antt =====
-- include/ghex/structured/cubed_sphere on concrete inputs.
use ghex.Base.{refl, ◌≡◌, arith, All}
use ghex.Base.Int.{pos, negsuc, ◌+ℤ◌, ◌-ℤ◌, ◌*ℤ◌, max_ℤ, min_ℤ}
use ghex.CubedSphere.DomainId.{ExtendedId}
use ghex.CubedSphere.Transform.{
  tile_at, reversed_x, reversed_y, apply, transform_at, inverse_transform_at,
}
use ghex.CubedSphere.Transform.Inverse.{Undoes, inverse-transform}
use ghex.CubedSphere.Transform.Regions.{}
use ghex.CubedSphere.HaloGenerator.Meet.{
  SameCorners, from_local, intersect_domain, intersect_domain-to_neighbor,
}
use ghex.CubedSphere.HaloGenerator.{
  Box, Box2, to_neighbor, intersect_box, Domain, uniform, generate,
}
use ghex.CubedSphere.HaloGenerator.Sound.{IsSound, generate-IsSound}

inverse-transform_example : Undoes (inverse_transform_at 3 1) (transform_at 3 1)
inverse-transform_example = inverse-transform 3 1 (omega arith) (omega arith)

-- A domain in the lower corner of tile 0, with ten cells along each edge.
abbrev corner : Domain
corner = record {
  tile = 0;
  c = pos 10;
  first = record { tile = pos 0; x = pos 0; y = pos 0; z = pos 0 };
  last = record { tile = pos 0; x = pos 4; y = pos 4; z = pos 3 };
}

generate-IsSound_example : All (IsSound (pos 10)) (generate (uniform (pos 2)) corner)
generate-IsSound_example = generate-IsSound (uniform (pos 2)) corner (omega arith)

-- The halo below the first column, on the neighbour tile 4, against that tile's own box.
abbrev region : Box2
region = record {
  loc = record {
    first = record { tile = pos 0; x = negsuc 1; y = pos 0; z = pos 0 };
    last = record { tile = pos 0; x = negsuc 0; y = pos 4; z = pos 3 };
  };
  glob = record {
    first = record { tile = pos 4; x = pos 5; y = pos 8; z = pos 0 };
    last = record { tile = pos 4; x = pos 9; y = pos 9; z = pos 3 };
  };
}

abbrev other : Box
other = record {
  first = record { tile = pos 4; x = pos 7; y = pos 5; z = pos 0 };
  last = record { tile = pos 4; x = pos 9; y = pos 9; z = pos 3 };
}

intersect_domain_local : (intersect_domain corner region other).loc ≡ record {
  first = record { tile = pos 0; x = negsuc 1; y = pos 0; z = pos 0 };
  last = record { tile = pos 0; x = negsuc 0; y = pos 2; z = pos 3 };
}
unfolding intersect_domain apply ◌+ℤ◌ ◌-ℤ◌ ◌*ℤ◌ max_ℤ min_ℤ reversed_x reversed_y intersect_box
    inverse_transform_at tile_at
intersect_domain_local = refl

intersect_domain-to_neighbor_example :
    SameCorners
      (to_neighbor 0 (pos 10) 0 (from_local corner (intersect_domain corner region other).loc))
      (intersect_domain corner region other).glob
    × ((intersect_domain corner region other).glob ≡ intersect_box region.glob other)
unfolding tile_at
intersect_domain-to_neighbor_example =
    intersect_domain-to_neighbor corner 0 region other (omega arith) (omega arith) refl refl

abbrev west : ExtendedId
west = record { id = record { tile = pos 2; x = pos 5; y = pos 0 }; tag = 0 }

abbrev east : ExtendedId
east = record { id = record { tile = pos 2; x = pos 0; y = pos 5 }; tag = 0 }

abbrev east_again : ExtendedId
east_again = record { id = record { tile = pos 2; x = pos 0; y = pos 5 }; tag = 1 }
