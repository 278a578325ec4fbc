-- ===== src/Transport/Barrier/Steps.antt =====
-- include/ghex/transport_layer/util/barrier.hpp: each action of a thread and the stages.
use ghex.Base.{
  ℕ, ◌+◌, ◌-◌, ◌<◌, ◌≤◌, ◌≡◌, refl, ap, ◌∙◌, Bool, some, length, get_elem?, set, arith, length-set,
  All, All-set, inl, inr, ◌⊎◌, ◌==◌, Bool-cases, ◌||◌,
}
use ghex.Transport.Barrier.{Phase, Thread, State, act}
use ghex.Transport.Barrier.Invariant.{
  Stage, Fits, PhaseFits, IsValid, count, is_spin1, is_spin2, is_last1, is_last2, is_ready,
  count-set, bit, count_mono, count-zero, squeeze, squeeze_zero, All-map,
}
use ghex.Transport.Barrier.Stages.{
  first_in, first_out, arriving_no_last1, last_in_no_spin2, leaving_no_last2, last_out_no_spin1,
  arriving_to_last_in, last_in_to_leaving, leaving_to_last_out, last_out_to_arriving,
}

-- Some stage of some round holds.
abbrev pub IsReachable : ℕ → State → Type 0
IsReachable n s = (g : Stage) × (r : ℕ) × IsValid n g r s

module _ (n i : ℕ) (t : Thread) (s : State) (got : get_elem? s.threads i ≡ some t) where
  -- The threads after the action, each in the old stage or in the new one.
  mixed :
      (g g' : Stage) (r r' : ℕ) (u : Thread)
      → IsValid n g r s
      → Fits g' r' u
      → All (λ (x : Thread). Fits g r x ⊎ Fits g' r' x) (set s.threads i u)
  mixed g g' r r' u v f = All-set _ s.threads i u (All-map (λ x h. inl h) s.threads v.fit) (inr f)

  moved :
      (p : Phase → Bool) (u : Thread) (k : Phase)
      → t.phase ≡ k
      → count p (set s.threads i u) + bit (p k) ≡ count p s.threads + bit (p u.phase)
  moved p u k e = rw (← e) (count-set p s.threads i t u got)

  kept_size : (g : Stage) (r : ℕ) (u : Thread) → IsValid n g r s → length (set s.threads i u) ≡ n
  kept_size g r u v = length-set s.threads i u ∙ v.size

  pub arrive-IsReachable :
      (r : ℕ)
      → t.phase ≡ Phase.outside
      → PhaseFits Stage.arriving r Phase.outside t.arrived t.left
      → IsValid n Stage.arriving r s
      → IsReachable n (act n i t Phase.outside s)
  unfolding act first_in
  arrive-IsReachable r e f v = elim (Bool-cases (s.count1 == n - 1)) [
    | inl last ↦
        let u : Thread = record t { phase = Phase.last1; arrived = t.arrived + 1 } in
        let none_yet =
          count-zero is_last1 (λ x. arriving_no_last1 r x.phase x.arrived x.left) s.threads v.fit in
        let most = count_mono is_spin1 first_in (λ x h. ap (λ b. b || is_last1 x) h) s.threads in
        rw last (
          Stage.last_in,
          r,
          record {
            size = kept_size Stage.arriving r u v;
            counted = (
              ground arith,
              omega (arith, moved is_last1 u Phase.outside e, none_yet),
              v.counted.2,
            );
            fit =
                squeeze first_in (λ x h k. arriving_to_last_in r x.phase x.arrived x.left h k)
                  (set s.threads i u) (mixed Stage.arriving Stage.last_in r r u v (omega arith))
                  (ground (
                    arith,
                    moved first_in u Phase.outside e,
                    most,
                    kept_size Stage.arriving r u v,
                  ));
          },
        )
    | inr more ↦
        let u : Thread = record t { phase = Phase.spin1; arrived = t.arrived + 1 } in
        rw more (
          Stage.arriving,
          r,
          record {
            size = kept_size Stage.arriving r u v;
            counted = (omega (arith, moved is_spin1 u Phase.outside e), ground arith, v.counted.2);
            fit = All-set (Fits Stage.arriving r) s.threads i u v.fit (omega arith);
          },
        )
  ]

  pub reset1-IsReachable :
      (r : ℕ)
      → t.phase ≡ Phase.last1
      → PhaseFits Stage.last_in r Phase.last1 t.arrived t.left
      → IsValid n Stage.last_in r s
      → 0 < n
      → IsReachable n (act n i t Phase.last1 s)
  unfolding act
  reset1-IsReachable r e f v pos =
      let u : Thread = record t { phase = Phase.leader } in
      let no_spin2 =
        count-zero is_spin2 (λ x. last_in_no_spin2 r x.phase x.arrived x.left) s.threads v.fit in
      (
        Stage.leaving,
        r,
        record {
          size = kept_size Stage.last_in r u v;
          counted = (
            refl,
            omega (arith, moved is_spin2 u Phase.last1 e, no_spin2, v.counted.2),
            omega (arith, v.counted.2),
            inr (omega (arith, moved is_ready u Phase.last1 e)),
          );
          fit =
              squeeze_zero is_last1 (λ x. last_in_to_leaving r x.phase x.arrived x.left)
                (set s.threads i u) (mixed Stage.last_in Stage.leaving r r u v f)
                (omega (arith, moved is_last1 u Phase.last1 e, v.counted.1));
        },
      )

  -- A move within the stage that touches no counter.
  pub pass-IsReachable :
      (r : ℕ) (u : Thread) (k : Phase)
      → t.phase ≡ k
      → is_spin2 k ≡ is_spin2 u.phase
      → bit (is_ready k) ≤ bit (is_ready u.phase)
      → Fits Stage.leaving r u
      → IsValid n Stage.leaving r s
      → IsReachable n (record s { threads = set s.threads i u })
  pass-IsReachable r u k e same more f v = (
    Stage.leaving,
    r,
    record {
      size = kept_size Stage.leaving r u v;
      counted = (
        v.counted.0,
        omega (arith, moved is_spin2 u k e, ap bit same, v.counted.1),
        v.counted.2,
        elim v.counted.3 [
          | inl some_left ↦ inl some_left
          | inr some_ready ↦ inr (omega (arith, moved is_ready u k e, more, some_ready))
        ],
      );
      fit = All-set (Fits Stage.leaving r) s.threads i u v.fit f;
    },
  )

  pub depart-IsReachable :
      (r : ℕ)
      → t.phase ≡ Phase.enter2
      → PhaseFits Stage.leaving r Phase.enter2 t.arrived t.left
      → IsValid n Stage.leaving r s
      → IsReachable n (act n i t Phase.enter2 s)
  unfolding act first_out
  depart-IsReachable r e f v = elim (Bool-cases (s.count2 == 1)) [
    | inl last ↦
        let u : Thread = record t { phase = Phase.last2 } in
        let none_yet =
          count-zero is_last2 (λ x. leaving_no_last2 r x.phase x.arrived x.left) s.threads v.fit in
        let most = count_mono is_spin2 first_out (λ x h. ap (λ b. b || is_last2 x) h) s.threads in
        rw last (
          Stage.last_out,
          r,
          record {
            size = kept_size Stage.leaving r u v;
            counted = (
              v.counted.0,
              omega (arith, moved is_last2 u Phase.enter2 e, none_yet),
              ground arith,
            );
            fit =
                squeeze first_out (λ x h k. leaving_to_last_out r x.phase x.arrived x.left h k)
                  (set s.threads i u) (mixed Stage.leaving Stage.last_out r r u v f)
                  (ground
                    (arith, moved first_out u Phase.enter2 e, most, kept_size Stage.leaving r u v));
          },
        )
    | inr more ↦
        let u : Thread = record t { phase = Phase.spin2 } in
        rw more (
          Stage.leaving,
          r,
          record {
            size = kept_size Stage.leaving r u v;
            counted = (
              v.counted.0,
              ground (arith, moved is_spin2 u Phase.enter2 e),
              ground arith,
              inl (ground arith),
            );
            fit = All-set (Fits Stage.leaving r) s.threads i u v.fit f;
          },
        )
  ]

  pub reset2-IsReachable :
      (r : ℕ)
      → t.phase ≡ Phase.last2
      → PhaseFits Stage.last_out r Phase.last2 t.arrived t.left
      → IsValid n Stage.last_out r s
      → 0 < n
      → IsReachable n (act n i t Phase.last2 s)
  unfolding act
  reset2-IsReachable r e f v pos =
      let u : Thread = record t { phase = Phase.outside; left = t.left + 1 } in
      let no_spin1 =
        count-zero is_spin1 (λ x. last_out_no_spin1 r x.phase x.arrived x.left) s.threads v.fit in
      (
        Stage.arriving,
        r + 1,
        record {
          size = kept_size Stage.last_out r u v;
          counted = (
            omega (arith, moved is_spin1 u Phase.last2 e, no_spin1, v.counted.0),
            omega (arith, v.counted.0),
            refl,
          );
          fit =
              squeeze_zero is_last2 (λ x. last_out_to_arriving r x.phase x.arrived x.left)
                (set s.threads i u)
                (mixed Stage.last_out Stage.arriving r (r + 1) u v (omega arith))
                (omega (arith, moved is_last2 u Phase.last2 e, v.counted.1));
        },
      )
