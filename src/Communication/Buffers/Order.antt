-- ===== src/Communication/Buffers/Order.antt =====
-- include/ghex/communication_object_2.hpp: the order of the buffers' keys.
use ghex.Base.{◌≡◌, true, false, ap₂, arith}
use ghex.Base.OrderedMap.{StrictOrder}
use ghex.Communication.Buffers.{DomainIdPair, less}

less-irreflexive : (a : DomainIdPair) → less a a ≡ false
unfolding less
less-irreflexive a = ground arith

less-transitive : (a b c : DomainIdPair) → less a b ≡ true → less b c ≡ true → less a c ≡ true
unfolding less
less-transitive a b c h k = ground arith

less-total : (a b : DomainIdPair) → less a b ≡ false → less b a ≡ false → a ≡ b
unfolding less
less-total a b h k =
    ap₂ (λ x y. record { first_id = x; second_id = y }) (ground arith) (ground arith)

-- `operator<` on pairs of domain ids is a total order: irreflexive, transitive, and two pairs of
-- which neither comes before the other are equal.
pub less-StrictOrder : StrictOrder less
less-StrictOrder = record {
  irreflexive = less-irreflexive;
  transitive = less-transitive;
  total = less-total;
}
