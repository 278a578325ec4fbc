-- ===== src/Transport/Barrier/Safety.antt =====
-- include/ghex/transport_layer/util/barrier.hpp: the barrier on any schedule of the threads.
use ghex.Base.{
  ℕ, zero, suc, ◌+◌, ◌<◌, ◌≤◌, ◌≡◌, refl, sym, ap, true, false, List, [], ◌∷◌, some, length,
  get_elem?, arith, All, All-get_elem?, All-set, length-set, ◌∙◌, subst, inl, inr, ◌==◌, Bool-cases,
  Option-cases,
}
use ghex.Transport.Barrier.{Phase, Thread, State, act, advance, run, init, newcomers}
use ghex.Transport.Barrier.Invariant.{
  Stage, Fits, PhaseFits, IsValid, count, is_spin1, is_spin2, count-set, bit, count-pos,
}
use ghex.Transport.Barrier.Steps.{
  IsReachable, arrive-IsReachable, reset1-IsReachable, pass-IsReachable, depart-IsReachable,
  reset2-IsReachable,
}

act-IsReachable :
    (n i : ℕ) (t : Thread) (s : State) (k : Phase) (g : Stage) (r : ℕ)
    → get_elem? s.threads i ≡ some t
    → t.phase ≡ k
    → PhaseFits g r k t.arrived t.left
    → IsValid n g r s
    → 0 < n
    → IsReachable n (act n i t k s)
unfolding act
act-IsReachable n i t s Phase.outside Stage.arriving r got e f v pos =
    arrive-IsReachable n i t s got r e f v
act-IsReachable n i t s Phase.spin1 Stage.arriving r got e f v pos =
    let some_wait = count-pos is_spin1 s.threads i t got (ap is_spin1 e) in
    let busy : (s.count1 == 0) ≡ false = ground (arith, v.counted.0) in
    rw busy (Stage.arriving, r, v)
act-IsReachable n i t s Phase.spin2 Stage.arriving r got e f v pos =
    let u : Thread = record t { phase = Phase.outside; left = t.left + 1 } in
    let free : (s.count2 == n) ≡ true = ground (arith, v.counted.2) in
    let same = count-set is_spin1 s.threads i t u got in
    let was = ap is_spin1 e in
    rw free (
      Stage.arriving,
      r,
      record {
        size = length-set s.threads i u ∙ v.size;
        counted = (omega (arith, same, v.counted.0, ap bit was), v.counted.1, v.counted.2);
        fit = All-set (Fits Stage.arriving r) s.threads i u v.fit (omega arith);
      },
    )
act-IsReachable n i t s Phase.spin1 Stage.last_in r got e f v pos =
    let busy : (s.count1 == 0) ≡ false = ground (arith, v.counted.0) in
    rw busy (Stage.last_in, r, v)
act-IsReachable n i t s Phase.last1 Stage.last_in r got e f v pos =
    reset1-IsReachable n i t s got r e f v pos
act-IsReachable n i t s Phase.spin1 Stage.leaving r got e f v pos =
    let free : (s.count1 == 0) ≡ true = ground (arith, v.counted.0) in
    rw free (
      pass-IsReachable n i t s got r (record t { phase = Phase.follower }) Phase.spin1 e refl
        (omega arith) f v)
act-IsReachable n i t s Phase.leader Stage.leaving r got e f v pos =
    pass-IsReachable n i t s got r (record t { phase = Phase.enter2 }) Phase.leader e refl
      (omega arith) f v
act-IsReachable n i t s Phase.follower Stage.leaving r got e f v pos =
    elim (Bool-cases (s.count2 == n)) [
      | inl h ↦ rw h (Stage.leaving, r, v)
      | inr h ↦ rw h (
          pass-IsReachable n i t s got r (record t { phase = Phase.enter2 }) Phase.follower e refl
            (omega arith) f v)
    ]
act-IsReachable n i t s Phase.enter2 Stage.leaving r got e f v pos =
    depart-IsReachable n i t s got r e f v
act-IsReachable n i t s Phase.spin2 Stage.leaving r got e f v pos =
    let some_wait = count-pos is_spin2 s.threads i t got (ap is_spin2 e) in
    let busy : (s.count2 == n) ≡ false = ground (arith, v.counted.1) in
    rw busy (Stage.leaving, r, v)
act-IsReachable n i t s Phase.spin2 Stage.last_out r got e f v pos =
    let busy : (s.count2 == n) ≡ false = ground (arith, v.counted.2) in
    rw busy (Stage.last_out, r, v)
act-IsReachable n i t s Phase.last2 Stage.last_out r got e f v pos =
    reset2-IsReachable n i t s got r e f v pos
act-IsReachable n i t s _ _ r got e f v pos = absurd f

advance-IsReachable :
    (n i : ℕ) (s : State) → 0 < n → IsReachable n s → IsReachable n (advance n i s)
unfolding advance
advance-IsReachable n i s pos (g, r, v) = elim (Option-cases (get_elem? s.threads i)) [
  | inr (t, e) ↦
      rw (advance, e)
        (act-IsReachable n i t s t.phase g r e refl (All-get_elem? (Fits g r) s.threads i t v.fit e)
          v pos)
  | inl e ↦ rw (advance, e) (g, r, v)
]

pub run-IsReachable :
    (n : ℕ) (is : List ℕ) (s : State) → 0 < n → IsReachable n s → IsReachable n (run n is s)
unfolding run
run-IsReachable n [] s pos v = v
run-IsReachable n (i ∷ is) s pos v =
    run-IsReachable n is (advance n i s) pos (advance-IsReachable n i s pos v)

newcomers_lem :
    (n : ℕ)
    → (length (newcomers n) ≡ n)
      × All (Fits Stage.arriving 0) (newcomers n)
      × (count is_spin1 (newcomers n) ≡ 0)
unfolding newcomers
newcomers_lem zero = (refl, tt, refl)
newcomers_lem (suc n) =
    let h = newcomers_lem n in (omega (arith, h.0), ((refl, refl), h.1), omega (arith, h.2))

pub init-IsReachable : (n : ℕ) → 0 < n → IsReachable n (init n)
unfolding init
init-IsReachable n pos =
    let h = newcomers_lem n in
    (Stage.arriving, 0, record { size = h.0; counted = (sym h.2, pos, refl); fit = h.1 })

PhaseFits-round :
    (g : Stage) (r : ℕ) (p : Phase) (a l : ℕ) → PhaseFits g r p a l → (l ≤ r) × (r ≤ a)
PhaseFits-round Stage.arriving r Phase.outside a l f = (omega arith, omega arith)
PhaseFits-round Stage.arriving r Phase.spin1 a l f = (omega arith, omega arith)
PhaseFits-round Stage.arriving r Phase.spin2 a l f = (omega arith, omega arith)
PhaseFits-round Stage.last_in r Phase.spin1 a l f = (omega arith, omega arith)
PhaseFits-round Stage.last_in r Phase.last1 a l f = (omega arith, omega arith)
PhaseFits-round Stage.leaving r Phase.spin1 a l f = (omega arith, omega arith)
PhaseFits-round Stage.leaving r Phase.leader a l f = (omega arith, omega arith)
PhaseFits-round Stage.leaving r Phase.follower a l f = (omega arith, omega arith)
PhaseFits-round Stage.leaving r Phase.enter2 a l f = (omega arith, omega arith)
PhaseFits-round Stage.leaving r Phase.spin2 a l f = (omega arith, omega arith)
PhaseFits-round Stage.last_out r Phase.spin2 a l f = (omega arith, omega arith)
PhaseFits-round Stage.last_out r Phase.last2 a l f = (omega arith, omega arith)
PhaseFits-round _ r _ a l f = absurd f

during_leader :
    (g : Stage) (r : ℕ) (q : Phase) (a l b m : ℕ)
    → PhaseFits g r Phase.leader a l
    → PhaseFits g r q b m
    → (b ≡ a) × (a ≡ m + 1)
during_leader Stage.leaving r Phase.spin1 a l b m f h = (omega arith, omega arith)
during_leader Stage.leaving r Phase.leader a l b m f h = (omega arith, omega arith)
during_leader Stage.leaving r Phase.follower a l b m f h = (omega arith, omega arith)
during_leader Stage.leaving r Phase.enter2 a l b m f h = (omega arith, omega arith)
during_leader Stage.leaving r Phase.spin2 a l b m f h = (omega arith, omega arith)
during_leader Stage.leaving r _ a l b m f h = absurd h
during_leader _ r _ a l b m f h = absurd f

-- The barrier of `n` threads, `n` positive, on every schedule: at every moment no thread has
-- returned from the barrier more often than any other thread has entered it.
pub run-rendezvous :
    (n : ℕ) (is : List ℕ) (i j : ℕ) (t u : Thread)
    → 0 < n
    → get_elem? (run n is (init n)).threads i ≡ some t
    → get_elem? (run n is (init n)).threads j ≡ some u
    → t.left ≤ u.arrived
run-rendezvous n is i j t u pos e h =
    let (g, r, v) = run-IsReachable n is (init n) pos (init-IsReachable n pos) in
    let one =
      PhaseFits-round g r t.phase t.arrived t.left (All-get_elem? (Fits g r) _ i t v.fit e) in
    let two =
      PhaseFits-round g r u.phase u.arrived u.left (All-get_elem? (Fits g r) _ j u v.fit h) in
    omega (arith, one, two)

-- The barrier of `n` threads, `n` positive, on every schedule: while a thread runs the rank
-- barrier, every thread has entered the barrier as often as that thread, and each has returned
-- from it once less than that.
pub run-rank_barrier :
    (n : ℕ) (is : List ℕ) (i j : ℕ) (t u : Thread)
    → 0 < n
    → get_elem? (run n is (init n)).threads i ≡ some t
    → get_elem? (run n is (init n)).threads j ≡ some u
    → t.phase ≡ Phase.leader
    → (u.arrived ≡ t.arrived) × (t.arrived ≡ u.left + 1)
run-rank_barrier n is i j t u pos e h lead =
    let (g, r, v) = run-IsReachable n is (init n) pos (init-IsReachable n pos) in
    let f = All-get_elem? (Fits g r) _ i t v.fit e in
    during_leader g r u.phase t.arrived t.left u.arrived u.left
      (subst (λ p. PhaseFits g r p t.arrived t.left) lead f)
      (All-get_elem? (Fits g r) _ j u v.fit h)
