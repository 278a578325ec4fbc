-- ===== src/Tests/Allocator.antt =====
-- include/ghex/allocator/pool_allocator_adaptor.hpp on concrete inputs.
use ghex.Base.{◌+◌, ◌≤◌, ◌≡◌, refl, [], ◌∷◌}
use ghex.Allocator.Pool.{Pool, allocate, deallocate}
use ghex.Allocator.Pool.Blocks.{State, Step, Steps, count, pooled, Steps-pooled}

-- Two blocks of 16 bytes, of which the first is given back and then handed out again, though the
-- underlying allocator would have had block 102.
abbrev pool_of_one : Pool
pool_of_one = deallocate 100 16 []

abbrev again : State
again = record {
  pool = (allocate 16 102 pool_of_one).1;
  live = (allocate 16 102 pool_of_one).0 ∷ 101 ∷ [];
}

handed_out_again : again.live ≡ 100 ∷ 101 ∷ []
unfolding allocate deallocate
handed_out_again = refl

history : Steps again
unfolding allocate deallocate
history =
    Steps.step
      (Steps.step
        (Steps.step (Steps.step Steps.start (Step.allocated 16 101 refl))
          (Step.allocated 16 100 refl))
        (Step.deallocated 100 16 [] (101 ∷ [])))
      (Step.allocated 16 102 refl)

Steps-pooled_example : count 100 again.live + pooled 100 again.pool ≤ 1
Steps-pooled_example = Steps-pooled again history 100
