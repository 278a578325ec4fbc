-- ===== src/Transport/Barrier/Liveness.antt =====
-- include/ghex/transport_layer/util/barrier.hpp: the waiting loops of the threads.
use ghex.Base.{
  ℕ, zero, suc, ◌-◌, ◌<◌, ◌≡◌, ◌≢◌, refl, sym, ap, ◌∙◌, Bool, true, false, not, List, [], ◌∷◌, some,
  length, get_elem?, set, arith, get_elem?-set_self, get_elem?-lt, All-get_elem?, inl, inr, ◌==◌,
  Bool-cases,
}
use ghex.Transport.Barrier.{Phase, Thread, State, act, advance, run, init}
use ghex.Transport.Barrier.Invariant.{
  Stage, Fits, PhaseFits, IsValid, count, is_spin1, is_spin2, is_last1, is_last2, is_ready,
}
use ghex.Transport.Barrier.Steps.{}
use ghex.Transport.Barrier.Safety.{run-IsReachable, init-IsReachable}

-- Some thread is in one of the phases.
Has : (Phase → Bool) → List Thread → Type 0
Has p ts = (i : ℕ) × (t : Thread) × (get_elem? ts i ≡ some t) × (p t.phase ≡ true)

Has-cons : (p : Phase → Bool) (x : Thread) (ts : List Thread) → Has p ts → Has p (x ∷ ts)
unfolding Has
Has-cons p x ts (i, t, e, h) = (suc i, t, e, h)

Has-count : (p : Phase → Bool) (ts : List Thread) → 0 < count p ts → Has p ts
unfolding Has
Has-count p [] h = absurd (omega arith)
Has-count p (x ∷ ts) h = elim (Bool-cases (p x.phase)) [
  | inl e ↦ (zero, x, refl, e)
  | inr e ↦ Has-cons p x ts (Has-count p ts (ground arith))
]

Has-not : (p : Phase → Bool) (ts : List Thread) → count p ts < length ts → Has (λ x. not (p x)) ts
unfolding Has
Has-not p [] h = absurd (omega arith)
Has-not p (x ∷ ts) h = elim (Bool-cases (p x.phase)) [
  | inl e ↦ Has-cons (λ x. not (p x)) x ts (Has-not p ts (ground arith))
  | inr e ↦ (zero, x, refl, ap not e)
]

-- Some thread has an action that changes the state.
abbrev pub CanMove : ℕ → State → Type 0
CanMove n s = (i : ℕ) × (advance n i s ≢ s)

-- Numbers that tell the phases apart.
abbrev rank : Phase → ℕ
rank Phase.outside = 0
rank Phase.spin1 = 1
rank Phase.last1 = 2
rank Phase.leader = 3
rank Phase.follower = 4
rank Phase.enter2 = 5
rank Phase.spin2 = 6
rank Phase.last2 = 7

some-rank : (t u : Thread) → some t ≡ some u → rank t.phase ≡ rank u.phase
some-rank t u h = let e : t ≡ u = cc in ap (λ x. rank (Thread.phase x)) e

-- The condition of the waiting loop in a phase.
abbrev free : ℕ → State → Phase → Bool
free n s Phase.spin1 = s.count1 == 0
free n s Phase.follower = not (s.count2 == n)
free n s Phase.spin2 = s.count2 == n
free n s _ = true

module _ (n i : ℕ) (t : Thread) (s : State) (got : get_elem? s.threads i ≡ some t) where
  changed :
      (c d : ℕ) (u : Thread)
      → rank u.phase ≢ rank t.phase
      → (let s' : State = record { count1 = c; count2 = d; threads = set s.threads i u } in s' ≢ s)
  changed c d u other e = other (
      some-rank u t (
        sym (get_elem?-set_self s.threads i u (get_elem?-lt s.threads i t got))
        ∙ ap (λ x. get_elem? (State.threads x) i) e
        ∙ got))

  act-moves : (k : Phase) → t.phase ≡ k → free n s k ≡ true → act n i t k s ≢ s
  unfolding act
  act-moves Phase.outside e f = elim (Bool-cases (s.count1 == n - 1)) [
    | inl h ↦ rw h (changed _ _ _ (λ d. absurd (omega (arith, d, ap rank e))))
    | inr h ↦ rw h (changed _ _ _ (λ d. absurd (omega (arith, d, ap rank e))))
  ]
  act-moves Phase.spin1 e f = rw f (changed _ _ _ (λ d. absurd (omega (arith, d, ap rank e))))
  act-moves Phase.last1 e f = changed _ _ _ (λ d. absurd (omega (arith, d, ap rank e)))
  act-moves Phase.leader e f = changed _ _ _ (λ d. absurd (omega (arith, d, ap rank e)))
  act-moves Phase.follower e f =
      let g : (s.count2 == n) ≡ false = ground (arith, f) in
      rw g (changed _ _ _ (λ d. absurd (omega (arith, d, ap rank e))))
  act-moves Phase.enter2 e f = elim (Bool-cases (s.count2 == 1)) [
    | inl h ↦ rw h (changed _ _ _ (λ d. absurd (omega (arith, d, ap rank e))))
    | inr h ↦ rw h (changed _ _ _ (λ d. absurd (omega (arith, d, ap rank e))))
  ]
  act-moves Phase.spin2 e f = rw f (changed _ _ _ (λ d. absurd (omega (arith, d, ap rank e))))
  act-moves Phase.last2 e f = changed _ _ _ (λ d. absurd (omega (arith, d, ap rank e)))

  advance-CanMove : free n s t.phase ≡ true → CanMove n s
  unfolding advance
  advance-CanMove f = (i, rw (advance, got) (act-moves t.phase refl f))

-- In which stage which threads do not wait.
free_arriving :
    (n : ℕ) (s : State) (r : ℕ) (k : Phase) (a l : ℕ)
    → PhaseFits Stage.arriving r k a l
    → s.count2 ≡ n
    → not (is_spin1 k) ≡ true
    → free n s k ≡ true
free_arriving n s r Phase.outside a l f c h = refl
free_arriving n s r Phase.spin1 a l f c h = cc
free_arriving n s r Phase.spin2 a l f c h = ground arith
free_arriving n s r _ a l f c h = absurd f

free_leaving :
    (n : ℕ) (s : State) (r : ℕ) (k : Phase) (a l : ℕ)
    → PhaseFits Stage.leaving r k a l
    → s.count1 ≡ 0
    → s.count2 < n
    → not (is_spin2 k) ≡ true
    → free n s k ≡ true
free_leaving n s r Phase.spin1 a l f c d h = ground arith
free_leaving n s r Phase.leader a l f c d h = refl
free_leaving n s r Phase.follower a l f c d h = ground arith
free_leaving n s r Phase.enter2 a l f c d h = refl
free_leaving n s r Phase.spin2 a l f c d h = cc
free_leaving n s r _ a l f c d h = absurd f

free_ready : (n : ℕ) (s : State) (k : Phase) → is_ready k ≡ true → free n s k ≡ true
free_ready n s Phase.leader h = refl
free_ready n s Phase.enter2 h = refl
free_ready n s _ h = cc

free_last1 : (n : ℕ) (s : State) (k : Phase) → is_last1 k ≡ true → free n s k ≡ true
free_last1 n s Phase.last1 h = refl
free_last1 n s _ h = cc

free_last2 : (n : ℕ) (s : State) (k : Phase) → is_last2 k ≡ true → free n s k ≡ true
free_last2 n s Phase.last2 h = refl
free_last2 n s _ h = cc

valid-CanMove : (n : ℕ) (s : State) (g : Stage) (r : ℕ) → IsValid n g r s → CanMove n s
unfolding Has
valid-CanMove n s Stage.arriving r v =
    let (i, t, e, h) = Has-not is_spin1 s.threads (omega (arith, v.size, v.counted)) in
    let f = All-get_elem? (Fits Stage.arriving r) s.threads i t v.fit e in
    advance-CanMove n i t s e (free_arriving n s r t.phase t.arrived t.left f v.counted.2 h)
valid-CanMove n s Stage.last_in r v =
    let (i, t, e, h) = Has-count is_last1 s.threads (omega (arith, v.counted)) in
    advance-CanMove n i t s e (free_last1 n s t.phase h)
valid-CanMove n s Stage.leaving r v = elim v.counted.3 [
  | inl less ↦
      let (i, t, e, h) =
        Has-not is_spin2 s.threads (omega (arith, v.size, v.counted.1, v.counted.2)) in
      let f = All-get_elem? (Fits Stage.leaving r) s.threads i t v.fit e in
      advance-CanMove n i t s e (free_leaving n s r t.phase t.arrived t.left f v.counted.0 less h)
  | inr ready ↦
      let (i, t, e, h) = Has-count is_ready s.threads ready in
      advance-CanMove n i t s e (free_ready n s t.phase h)
]
valid-CanMove n s Stage.last_out r v =
    let (i, t, e, h) = Has-count is_last2 s.threads (omega (arith, v.counted)) in
    advance-CanMove n i t s e (free_last2 n s t.phase h)

-- The barrier of `n` threads, `n` positive, on every schedule: at every moment some thread has an
-- action that changes the state.
pub run-CanMove : (n : ℕ) (is : List ℕ) → 0 < n → CanMove n (run n is (init n))
run-CanMove n is pos =
    let (g, r, v) = run-IsReachable n is (init n) pos (init-IsReachable n pos) in
    valid-CanMove n (run n is (init n)) g r v
