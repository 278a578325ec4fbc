-- ===== src/Structured/Regular/HaloGenerator/Wrap.antt =====
-- include/ghex/structured/regular/halo_generator.hpp: the periodic wrap in operator().
use native.Mathlib.Nat.{add-zero}
use ghex.Base.{ℕ, ◌+◌, ◌*◌, ◌%◌, ◌/◌, ◌≡◌, refl, true, arith}
use ghex.Base.Int.{ℤ, pos, negsuc, pos_part, ◌+ℤ◌, ◌-ℤ◌, ◌%ℤ◌, ◌≤ℤ◌, int_laws}
use ghex.Structured.Space.{Span}
use ghex.Structured.Regular.HaloGenerator.{wrap_span}

-- The remainder of a number that is not negative.
rem_pos :
    (a e : ℤ)
    → pos 0 ≤ℤ a
    → pos 1 ≤ℤ e
    → (q : ℕ) × (a ≡ pos (q * pos_part e) +ℤ (a %ℤ e))
      × (pos 0 ≤ℤ (a %ℤ e))
      × (a %ℤ e +ℤ pos 1 ≤ℤ e)
unfolding ◌%ℤ◌
rem_pos (negsuc a) e h k = absurd (omega arith)
rem_pos (pos a) (negsuc e) h k = absurd (omega arith)
rem_pos (pos a) (pos e) h k =
    let d : a ≡ a / (e + 0) * e + a % (e + 0) = rw add-zero (omega arith) in
    (a / (e + 0), omega (int_laws, d), omega arith, omega int_laws)

-- In a periodic dimension of a global domain that is not empty, for a halo that begins at most one
-- period below the global domain: the wrapped halo begins inside the global domain, it has been moved by a multiple of the
-- period, and it is as long as before. The local side is unchanged.
pub wrap_span_periodic :
    (g_first g_last : ℤ) (s : Span)
    → g_first ≤ℤ g_last
    → g_first -ℤ (g_last +ℤ pos 1 -ℤ g_first) ≤ℤ s.global_first
    → let t = wrap_span g_first g_last true s in
      let ext = g_last +ℤ pos 1 -ℤ g_first in
      (g_first ≤ℤ t.global_first)
      × (t.global_first ≤ℤ g_last)
      × (t.global_last -ℤ t.global_first ≡ s.global_last -ℤ s.global_first)
      × ((q : ℕ) × (s.global_first +ℤ ext ≡ t.global_first +ℤ pos (q * pos_part ext)))
      × (t.local_first ≡ s.local_first)
      × (t.local_last ≡ s.local_last)
unfolding wrap_span
wrap_span_periodic f l s h near =
    let ext = l +ℤ pos 1 -ℤ f in
    let (q, e, lo, hi) =
      rem_pos (s.global_first -ℤ f +ℤ ext) ext (omega int_laws) (omega int_laws) in
    (omega int_laws, omega int_laws, omega int_laws, (q, omega (int_laws, e)), refl, refl)
