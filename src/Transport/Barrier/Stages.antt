-- ===== src/Transport/Barrier/Stages.antt =====
-- include/ghex/transport_layer/util/barrier.hpp: the phases of the threads in each stage.
use ghex.Base.{ℕ, ◌+◌, ◌≡◌, refl, Bool, true, false, arith, inl, inr, ◌⊎◌, ◌||◌}
use ghex.Transport.Barrier.{Phase}
use ghex.Transport.Barrier.Invariant.{Stage, PhaseFits, is_spin1, is_spin2, is_last1, is_last2}

unfoldable pub first_in : Phase → Bool
first_in p = is_spin1 p || is_last1 p

unfoldable pub first_out : Phase → Bool
first_out p = is_spin2 p || is_last2 p

-- Which phases a stage excludes.
pub arriving_no_last1 :
    (r : ℕ) (p : Phase) (a l : ℕ) → PhaseFits Stage.arriving r p a l → is_last1 p ≡ false
arriving_no_last1 r Phase.last1 a l h = absurd h
arriving_no_last1 r _ a l h = refl

pub last_in_no_spin2 :
    (r : ℕ) (p : Phase) (a l : ℕ) → PhaseFits Stage.last_in r p a l → is_spin2 p ≡ false
last_in_no_spin2 r Phase.spin2 a l h = absurd h
last_in_no_spin2 r _ a l h = refl

pub leaving_no_last2 :
    (r : ℕ) (p : Phase) (a l : ℕ) → PhaseFits Stage.leaving r p a l → is_last2 p ≡ false
leaving_no_last2 r Phase.last2 a l h = absurd h
leaving_no_last2 r _ a l h = refl

pub last_out_no_spin1 :
    (r : ℕ) (p : Phase) (a l : ℕ) → PhaseFits Stage.last_out r p a l → is_spin1 p ≡ false
last_out_no_spin1 r Phase.spin1 a l h = absurd h
last_out_no_spin1 r _ a l h = refl

-- How the threads of one stage fit the next, once all of them have made the move.
pub arriving_to_last_in :
    (r : ℕ) (p : Phase) (a l : ℕ)
    → PhaseFits Stage.arriving r p a l ⊎ PhaseFits Stage.last_in r p a l
    → first_in p ≡ true
    → PhaseFits Stage.last_in r p a l
unfolding first_in
arriving_to_last_in r Phase.spin1 a l (inl h) e = h
arriving_to_last_in r Phase.outside a l (inl h) e = cc
arriving_to_last_in r Phase.spin2 a l (inl h) e = cc
arriving_to_last_in r _ a l (inl h) e = absurd h
arriving_to_last_in r _ a l (inr h) e = h

pub last_in_to_leaving :
    (r : ℕ) (p : Phase) (a l : ℕ)
    → PhaseFits Stage.last_in r p a l ⊎ PhaseFits Stage.leaving r p a l
    → is_last1 p ≡ false
    → PhaseFits Stage.leaving r p a l
last_in_to_leaving r Phase.spin1 a l (inl h) e = h
last_in_to_leaving r Phase.last1 a l (inl h) e = cc
last_in_to_leaving r _ a l (inl h) e = absurd h
last_in_to_leaving r _ a l (inr h) e = h

pub leaving_to_last_out :
    (r : ℕ) (p : Phase) (a l : ℕ)
    → PhaseFits Stage.leaving r p a l ⊎ PhaseFits Stage.last_out r p a l
    → first_out p ≡ true
    → PhaseFits Stage.last_out r p a l
unfolding first_out
leaving_to_last_out r Phase.spin2 a l (inl h) e = h
leaving_to_last_out r Phase.spin1 a l (inl h) e = cc
leaving_to_last_out r Phase.leader a l (inl h) e = cc
leaving_to_last_out r Phase.follower a l (inl h) e = cc
leaving_to_last_out r Phase.enter2 a l (inl h) e = cc
leaving_to_last_out r _ a l (inl h) e = absurd h
leaving_to_last_out r _ a l (inr h) e = h

pub last_out_to_arriving :
    (r : ℕ) (p : Phase) (a l : ℕ)
    → PhaseFits Stage.last_out r p a l ⊎ PhaseFits Stage.arriving (r + 1) p a l
    → is_last2 p ≡ false
    → PhaseFits Stage.arriving (r + 1) p a l
last_out_to_arriving r Phase.spin2 a l (inl h) e = omega (arith, h)
last_out_to_arriving r Phase.last2 a l (inl h) e = cc
last_out_to_arriving r _ a l (inl h) e = absurd h
last_out_to_arriving r _ a l (inr h) e = h
