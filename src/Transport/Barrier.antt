-- ===== src/Transport/Barrier.antt =====
-- include/ghex/transport_layer/util/barrier.hpp: `barrier_t::operator()` for the threads of one rank.
-- A thread's position in the code is its phase. `advance` is one atomic action of one thread: a
-- successful compare-exchange, a store, the end of the rank barrier, or one round of a waiting loop.
-- A compare-exchange that fails changes nothing and is left out. `arrived` and `left` count how often
-- a thread has entered the barrier and returned from it; the program does not store them.
pub mod Invariant
pub mod Stages
pub mod Steps
pub mod Safety
pub mod Liveness
use ghex.Base.{
  ℕ, zero, suc, ◌+◌, ◌-◌, ◌^◌, List, [], ◌∷◌, none, some, if◌then◌else◌, ◌==◌, get_elem?, set,
}

-- outside; in_node1: waiting for `b_count` to fall to 0, or about to store 0; the thread that runs
-- the rank barrier; the others, waiting for it; about to decrement `b_count2`; in_node2: waiting for
-- `b_count2` to be reset, or about to reset it.
pub data Phase : Type 0 where
  outside spin1 last1 leader follower enter2 spin2 last2 : Phase

pub record Thread : Type 0 where
  pub phase : Phase
  pub arrived : ℕ
  pub left : ℕ

-- `b_count`, `b_count2`.
pub record State : Type 0 where
  pub count1 : ℕ
  pub count2 : ℕ
  pub threads : List Thread

-- `ex - 1` on `size_t`.
abbrev pub decrement : ℕ → ℕ
decrement ex = if ex == 0 then 2 ^ 64 - 1 else ex - 1

abbrev pub put : State → ℕ → Thread → State
put s i t = record s { threads = set s.threads i t }

-- The next action of thread `i`, which is `t`; `n` is `m_threads`.
unfoldable pub act : ℕ → ℕ → Thread → Phase → State → State
act n i t Phase.outside s = record s {
  count1 = s.count1 + 1;
  threads = set s.threads i (record t {
    phase = if s.count1 == n - 1 then Phase.last1 else Phase.spin1;
    arrived = t.arrived + 1;
  });
}
act n i t Phase.last1 s = record s {
  count1 = 0;
  threads = set s.threads i (record t { phase = Phase.leader });
}
act n i t Phase.spin1 s = if s.count1 == 0 then put s i (record t { phase = Phase.follower }) else s
act n i t Phase.leader s = put s i (record t { phase = Phase.enter2 })
act n i t Phase.follower s =
    if s.count2 == n then s else put s i (record t { phase = Phase.enter2 })
act n i t Phase.enter2 s = record s {
  count2 = decrement s.count2;
  threads =
      set s.threads i (record t { phase = if s.count2 == 1 then Phase.last2 else Phase.spin2 });
}
act n i t Phase.last2 s = record s {
  count2 = n;
  threads = set s.threads i (record t { phase = Phase.outside; left = t.left + 1 });
}
act n i t Phase.spin2 s =
    if s.count2 == n then put s i (record t { phase = Phase.outside; left = t.left + 1 }) else s

unfoldable pub advance : ℕ → ℕ → State → State
unfolding act
advance n i s = elim (get_elem? s.threads i) [ none ↦ s | some t ↦ act n i t t.phase s ]

-- A schedule names the thread that acts next.
unfoldable pub run : ℕ → List ℕ → State → State
unfolding advance
run n [] s = s
run n (i ∷ is) s = run n is (advance n i s)

abbrev pub newcomer : Thread
newcomer = record { phase = Phase.outside; arrived = 0; left = 0 }

unfoldable pub newcomers : ℕ → List Thread
newcomers zero = []
newcomers (suc n) = newcomer ∷ newcomers n

-- The constructor, with every thread outside.
unfoldable pub init : ℕ → State
unfolding newcomers
init n = record { count1 = 0; count2 = n; threads = newcomers n }
