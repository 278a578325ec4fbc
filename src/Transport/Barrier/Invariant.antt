-- ===== src/Transport/Barrier/Invariant.antt =====
-- include/ghex/transport_layer/util/barrier.hpp: the four stages of a round of the barrier.
use ghex.Base.{
  ℕ, zero, suc, ◌+◌, ◌<◌, ◌≤◌, ◌≡◌, refl, Bool, true, false, List, [], ◌∷◌, some, length, get_elem?,
  set, arith, All, inl, inr, ◌⊎◌, Bool-cases,
}
use ghex.Transport.Barrier.{Phase, Thread, State}

abbrev pub bit : Bool → ℕ
bit true = 1
bit false = 0

abbrev pub is_spin1 : Phase → Bool
is_spin1 Phase.spin1 = true
is_spin1 _ = false

abbrev pub is_spin2 : Phase → Bool
is_spin2 Phase.spin2 = true
is_spin2 _ = false

-- About to decrement `b_count2` without waiting for another thread to do so.
abbrev pub is_ready : Phase → Bool
is_ready Phase.leader = true
is_ready Phase.enter2 = true
is_ready _ = false

abbrev pub is_last1 : Phase → Bool
is_last1 Phase.last1 = true
is_last1 _ = false

abbrev pub is_last2 : Phase → Bool
is_last2 Phase.last2 = true
is_last2 _ = false

-- How many threads are in a phase.
abbrev pub count : (Phase → Bool) → List Thread → ℕ
count p [] = 0
count p (t ∷ ts) = bit (p t.phase) + count p ts

-- Threads arrive; the last one has arrived; threads leave; the last one leaves.
pub data Stage : Type 0 where
  arriving last_in leaving last_out : Stage

abbrev pub Entered : ℕ → ℕ → ℕ → Type 0
Entered r a l = (a ≡ r + 1) × (l ≡ r)

-- Which phases occur in a stage of round `r`, and how often such a thread has arrived and left.
abbrev pub PhaseFits : Stage → ℕ → Phase → ℕ → ℕ → Type 0
PhaseFits Stage.arriving r Phase.outside a l = (a ≡ r) × (l ≡ r)
PhaseFits Stage.arriving r Phase.spin1 a l = Entered r a l
PhaseFits Stage.arriving r Phase.spin2 a l = (a ≡ r) × (l + 1 ≡ r)
PhaseFits Stage.last_in r Phase.spin1 a l = Entered r a l
PhaseFits Stage.last_in r Phase.last1 a l = Entered r a l
PhaseFits Stage.leaving r Phase.spin1 a l = Entered r a l
PhaseFits Stage.leaving r Phase.leader a l = Entered r a l
PhaseFits Stage.leaving r Phase.follower a l = Entered r a l
PhaseFits Stage.leaving r Phase.enter2 a l = Entered r a l
PhaseFits Stage.leaving r Phase.spin2 a l = Entered r a l
PhaseFits Stage.last_out r Phase.spin2 a l = Entered r a l
PhaseFits Stage.last_out r Phase.last2 a l = Entered r a l
PhaseFits _ r _ a l = ⊥

abbrev pub Fits : Stage → ℕ → Thread → Type 0
Fits g r t = PhaseFits g r t.phase t.arrived t.left

-- The counters in each stage.
abbrev pub Counted : ℕ → Stage → State → Type 0
Counted n Stage.arriving s = (s.count1 ≡ count is_spin1 s.threads) × (s.count1 < n) × (s.count2 ≡ n)
Counted n Stage.last_in s = (s.count1 ≡ n) × (count is_last1 s.threads ≡ 1) × (s.count2 ≡ n)
Counted n Stage.leaving s =
    (s.count1 ≡ 0)
    × (s.count2 + count is_spin2 s.threads ≡ n)
    × (0 < s.count2)
    × ((s.count2 < n) ⊎ (0 < count is_ready s.threads))
Counted n Stage.last_out s = (s.count1 ≡ 0) × (count is_last2 s.threads ≡ 1) × (s.count2 ≡ 0)

pub record IsValid (n : ℕ) (g : Stage) (r : ℕ) (s : State) : Type 0 where
  pub size : length s.threads ≡ n
  pub counted : Counted n g s
  pub fit : All (Fits g r) s.threads

pub count-set :
    (p : Phase → Bool) (ts : List Thread) (i : ℕ) (t u : Thread)
    → get_elem? ts i ≡ some t
    → count p (set ts i u) + bit (p t.phase) ≡ count p ts + bit (p u.phase)
count-set p [] i t u g = cc
count-set p (x ∷ ts) zero t u g = ground arith
count-set p (x ∷ ts) (suc i) t u g = omega (arith, count-set p ts i t u g)

pub count-pos :
    (p : Phase → Bool) (ts : List Thread) (i : ℕ) (t : Thread)
    → get_elem? ts i ≡ some t
    → p t.phase ≡ true
    → 0 < count p ts
count-pos p [] i t g h = cc
count-pos p (x ∷ ts) zero t g h = ground arith
count-pos p (x ∷ ts) (suc i) t g h = omega (arith, count-pos p ts i t g h)

count-le-length : (p : Phase → Bool) (ts : List Thread) → count p ts ≤ length ts
count-le-length p [] = omega arith
count-le-length p (t ∷ ts) = ground (arith, count-le-length p ts)

pub count_mono :
    (p q : Phase → Bool)
    → ((x : Phase) → p x ≡ true → q x ≡ true)
    → (ts : List Thread) → count p ts ≤ count q ts
count_mono p q h [] = omega arith
count_mono p q h (t ∷ ts) = ground (arith, count_mono p q h ts, h t.phase)

module _ {P : Thread → Type 0} (p : Phase → Bool) where
  pub count-zero :
      ((t : Thread) → P t → p t.phase ≡ false) → (ts : List Thread) → All P ts → count p ts ≡ 0
  count-zero h [] k = refl
  count-zero h (t ∷ ts) k = ground (arith, count-zero h ts k.1, h t k.0)

  -- Every thread counts where as many count as there are.
  pub squeeze :
      {Q : Thread → Type 0}
      → ((t : Thread) → P t → p t.phase ≡ true → Q t)
      → (ts : List Thread) → All P ts
      → length ts ≤ count p ts
      → All Q ts
  squeeze h [] k le = tt
  squeeze h (t ∷ ts) k le = elim (Bool-cases (p t.phase)) [
    | inl e ↦ (h t k.0 e, squeeze h ts k.1 (ground arith))
    | inr e ↦ let b = count-le-length p ts in absurd (ground arith)
  ]

  pub squeeze_zero :
      {Q : Thread → Type 0}
      → ((t : Thread) → P t → p t.phase ≡ false → Q t)
      → (ts : List Thread) → All P ts
      → count p ts ≡ 0
      → All Q ts
  squeeze_zero h [] k z = tt
  squeeze_zero h (t ∷ ts) k z = (h t k.0 (ground arith), squeeze_zero h ts k.1 (ground arith))

pub All-map :
    {P Q : Thread → Type 0} → ((t : Thread) → P t → Q t) → (ts : List Thread) → All P ts → All Q ts
All-map h [] k = tt
All-map h (t ∷ ts) k = (h t k.0, All-map h ts k.1)
