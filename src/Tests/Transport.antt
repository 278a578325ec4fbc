-- ===== src/Tests/Transport.antt =====
-- include/ghex/transport_layer on concrete inputs.
use ghex.Base.{
  ℕ, zero, suc, ◌+◌, ◌<◌, ◌≤◌, ◌≡◌, refl, true, false, arith, List, [], ◌∷◌, Option, none, some,
  length,
}
use ghex.Transport.CallbackQueue.{Element, Queue, complete, cancel, progress_loop}
use ghex.Transport.CallbackQueue.Invariant.{IsValid, complete-IsValid, cancel-IsValid}
use ghex.Transport.CallbackQueue.Progress.{Progressed, progress_loop_total}
use ghex.Transport.Barrier.{Phase, Thread, run, init}
use ghex.Transport.Barrier.Liveness.{CanMove, run-CanMove}
use ghex.Transport.Barrier.Safety.{run-rendezvous, run-rank_barrier}

-- Three sends, with messages 10, 20 and 30; the futures are the numbers of the operations.
abbrev three : Queue ℕ ℕ
three = record {
  queue =
      record { msg = 10; future = 0; request = 0 }
      ∷ record { msg = 20; future = 1; request = 1 }
      ∷ record { msg = 30; future = 2; request = 2 }
      ∷ [];
  states =
      record { ready = false; index = 0 }
      ∷ record { ready = false; index = 1 }
      ∷ record { ready = false; index = 2 }
      ∷ [];
  called = [];
  progressed_cancels = 0;
}

three-IsValid : IsValid three
three-IsValid zero e g = cc
three-IsValid (suc zero) e g = cc
three-IsValid (suc (suc zero)) e g = cc
three-IsValid (suc (suc (suc i))) e g = cc

-- The last element takes the place of the completed one and its handle learns the position.
complete_states :
    (complete 0 three).states
    ≡ record { ready = true; index = 0 }
      ∷ record { ready = false; index = 1 }
      ∷ record { ready = false; index = 0 }
      ∷ []
unfolding complete
complete_states = refl

complete-IsValid_example : IsValid (complete 0 three)
complete-IsValid_example = complete-IsValid three three-IsValid 0 (omega arith)

cancel-IsValid_example : IsValid (cancel true 1 three).1
cancel-IsValid_example = cancel-IsValid three three-IsValid true 1 (omega arith)

-- A transport that completes operations in no order: the front one, while more than one waits.
abbrev front_of_two : List (Element ℕ ℕ) → Option ℕ
front_of_two [] = none
front_of_two (e ∷ []) = none
front_of_two (e ∷ (d ∷ l)) = some 0

front_in_range : (l : List (Element ℕ ℕ)) (i : ℕ) → front_of_two l ≡ some i → i < length l
front_in_range [] i h = cc
front_in_range (e ∷ []) i h = cc
front_in_range (e ∷ (d ∷ l)) i h = ground arith

progress_loop_total_example :
    (completed : ℕ) × (r : Queue ℕ ℕ) × (progress_loop front_of_two 4 three 0 ≡ some (completed, r))
    × Progressed front_of_two front_in_range three 0 completed r
progress_loop_total_example =
    progress_loop_total front_of_two front_in_range 4 three 0 (omega arith) three-IsValid

-- Two threads: one full round, with the second thread last to arrive.
abbrev schedule : List ℕ
schedule = 0 ∷ 1 ∷ 1 ∷ 0 ∷ 1 ∷ 1 ∷ 0 ∷ 0 ∷ 0 ∷ 1 ∷ []

abbrev returned : Thread
returned = record { phase = Phase.outside; arrived = 1; left = 1 }

run_round :
    run 2 schedule (init 2) ≡ record { count1 = 0; count2 = 2; threads = returned ∷ returned ∷ [] }
unfolding run init
run_round = refl

run-rendezvous_example : returned.left ≤ returned.arrived
unfolding run init
run-rendezvous_example = run-rendezvous 2 schedule 1 0 returned returned (omega arith) refl refl

abbrev first : Thread
first = record { phase = Phase.spin1; arrived = 1; left = 0 }

abbrev leading : Thread
leading = record { phase = Phase.leader; arrived = 1; left = 0 }

-- The second thread has arrived last and has reset the counter.
run-rank_barrier_example : (first.arrived ≡ leading.arrived) × (leading.arrived ≡ first.left + 1)
unfolding run init
run-rank_barrier_example =
    run-rank_barrier 2 (0 ∷ 1 ∷ 1 ∷ []) 1 0 leading first (omega arith) refl refl refl

run-CanMove_example : CanMove 2 (run 2 (0 ∷ 1 ∷ []) (init 2))
run-CanMove_example = run-CanMove 2 (0 ∷ 1 ∷ []) (omega arith)
