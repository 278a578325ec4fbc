-- ===== src/Communication/Memory.antt =====
-- Bytes at addresses, `std::memcpy`, and the loops of a field that copy its elements to a buffer and
-- back (`get` and `set` of the field descriptors).
pub mod Transfer
pub mod Elements
use ghex.Base.{ℕ, ◌+◌, ◌-◌, ◌*◌, ◌<◌, ◌≤◌, Bool, ◌&&◌, leb, ltb, List, [], ◌∷◌, if◌then◌else◌}

-- The byte at each address.
abbrev pub Memory : Type 0
Memory = ℕ → ℕ

abbrev pub in_range : ℕ → ℕ → ℕ → Bool
in_range d n a = leb d a && ltb a (d + n)

-- `memcpy(&dst[d], &src[s], n)`
unfoldable pub memcpy : Memory → ℕ → Memory → ℕ → ℕ → Memory
memcpy dst d src s n a = if in_range d n a then src (s + (a - d)) else dst a

-- Elements of `size` bytes, given by their addresses, are copied to the buffer one after another.
unfoldable pub gather : ℕ → Memory → List ℕ → Memory → ℕ → Memory
unfolding memcpy
gather size values [] buffer at = buffer
gather size values (i ∷ is) buffer at =
    gather size values is (memcpy buffer at values i size) (at + size)

-- And from the buffer back to the elements.
unfoldable pub scatter : ℕ → Memory → List ℕ → Memory → ℕ → Memory
unfolding memcpy
scatter size values [] buffer at = values
scatter size values (i ∷ is) buffer at =
    scatter size (memcpy values i buffer at size) is buffer (at + size)

-- The elements of one field copied to elements of another with no buffer between.
unfoldable pub transfer : ℕ → Memory → List ℕ → Memory → List ℕ → Memory
unfolding memcpy
transfer size from [] to js = to
transfer size from (i ∷ is) to [] = to
transfer size from (i ∷ is) to (j ∷ js) = transfer size from is (memcpy to j from i size) js
