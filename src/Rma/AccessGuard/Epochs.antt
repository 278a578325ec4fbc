-- ===== src/Rma/AccessGuard/Epochs.antt =====
-- include/ghex/rma/access_guard.hpp: the epochs of the owner and its counterpart.
use ghex.Base.{
  ℕ, ◌+◌, ◌≡◌, refl, arith, Bool, true, false, not, ◌&&◌, ◌||◌, ◌≤◌, List, [], ◌∷◌, Bool-cases, inl,
  inr,
}
use ghex.Rma.AccessGuard.{
  AccessMode, Locality, Guard, Run, Participant, is_remote, try_start_target_epoch,
  try_start_source_epoch, end_target_epoch, end_source_epoch, act, run, init, make,
}

abbrev bit : Bool → ℕ
bit true = 1
bit false = 0

-- The counterpart is on the same node.
abbrev pub is_guarded : Locality → Bool
is_guarded Locality.thread = true
is_guarded Locality.process = true
is_guarded Locality.remote = false

-- For a guard that was made in the mode `m`.
record IsValid (m : AccessMode) (s : Run) : Type 0 where
  guarded : is_guarded s.guard.locality ≡ true
  opposite : try_start_source_epoch s.guard ≡ not (try_start_target_epoch s.guard)
  target : (s.in_target && not (try_start_target_epoch s.guard)) ≡ false
  source : (s.in_source && try_start_target_epoch s.guard) ≡ false
  counts : s.targets + bit (is_remote m) ≡ s.sources + bit (not (try_start_target_epoch s.guard))

-- What the end of an epoch does to a guard on the same node.
abbrev Ends : Guard → Guard → Bool → Type 0
Ends g h b =
    (is_guarded h.locality ≡ true)
    × (try_start_target_epoch h ≡ b)
    × (try_start_source_epoch h ≡ not b)

end_target :
    (l : Locality) (t p : AccessMode)
    → is_guarded l ≡ true
    → (let g : Guard = record { locality = l; thread_guard = t; process_guard = p } in
        Ends g (end_target_epoch g) false)
unfolding end_target_epoch try_start_target_epoch try_start_source_epoch
end_target Locality.thread t p h = (refl, refl, refl)
end_target Locality.process t p h = (refl, refl, refl)
end_target Locality.remote t p h = cc

end_source :
    (l : Locality) (t p : AccessMode)
    → is_guarded l ≡ true
    → (let g : Guard = record { locality = l; thread_guard = t; process_guard = p } in
        Ends g (end_source_epoch g) true)
unfolding end_source_epoch try_start_target_epoch try_start_source_epoch
end_source Locality.thread t p h = (refl, refl, refl)
end_source Locality.process t p h = (refl, refl, refl)
end_source Locality.remote t p h = cc

act-IsValid : (m : AccessMode) (p : Participant) (s : Run) → IsValid m s → IsValid m (act p s)
unfolding act
act-IsValid m Participant.owner s v = elim (Bool-cases s.in_target) [
  | inl e ↦
      rw (act, e)
        (let (g, h, k) =
            end_target s.guard.locality s.guard.thread_guard s.guard.process_guard v.guarded in
          record {
            guarded = g;
            opposite = ground (arith, h, k);
            target = refl;
            source = ground (arith, h, v.target, v.source, v.opposite);
            counts = ground (arith, h, v.target, v.counts);
          })
  | inr e ↦ elim (Bool-cases (try_start_target_epoch s.guard)) [
    | inl f ↦
        rw (act, e, f)
          (record {
            guarded = v.guarded;
            opposite = v.opposite;
            target = ground (arith, f);
            source = v.source;
            counts = v.counts;
          })
    | inr f ↦ simp (act, e, f) v
  ]
]
act-IsValid m Participant.counterpart s v = elim (Bool-cases s.in_source) [
  | inl e ↦
      rw (act, e)
        (let (g, h, k) =
            end_source s.guard.locality s.guard.thread_guard s.guard.process_guard v.guarded in
          record {
            guarded = g;
            opposite = ground (arith, h, k);
            target = ground (arith, h, v.target, v.source, v.opposite);
            source = refl;
            counts = ground (arith, h, v.source, v.counts);
          })
  | inr e ↦ elim (Bool-cases (try_start_source_epoch s.guard)) [
    | inl f ↦
        rw (act, e, f)
          (record {
            guarded = v.guarded;
            opposite = v.opposite;
            target = v.target;
            source = ground (arith, f, v.opposite);
            counts = v.counts;
          })
    | inr f ↦ simp (act, e, f) v
  ]
]

run-IsValid :
    (m : AccessMode) (ps : List Participant) (s : Run) → IsValid m s → IsValid m (run ps s)
unfolding run
run-IsValid m [] s v = v
run-IsValid m (p ∷ ps) s v = run-IsValid m ps (act p s) (act-IsValid m p s v)

init-IsValid : (l : Locality) (m : AccessMode) → is_guarded l ≡ true → IsValid m (init l m)
unfolding init make try_start_target_epoch try_start_source_epoch
init-IsValid Locality.thread AccessMode.local h = record {
  guarded = refl;
  opposite = refl;
  target = refl;
  source = refl;
  counts = refl;
}
init-IsValid Locality.thread AccessMode.remote h = record {
  guarded = refl;
  opposite = refl;
  target = refl;
  source = refl;
  counts = refl;
}
init-IsValid Locality.process AccessMode.local h = record {
  guarded = refl;
  opposite = refl;
  target = refl;
  source = refl;
  counts = refl;
}
init-IsValid Locality.process AccessMode.remote h = record {
  guarded = refl;
  opposite = refl;
  target = refl;
  source = refl;
  counts = refl;
}
init-IsValid Locality.remote m h = cc

-- For participants on the same node, a guard made in either mode, and any order of their actions:
-- they are never both within an epoch.
pub run-exclusive :
    (l : Locality) (m : AccessMode) (ps : List Participant)
    → is_guarded l ≡ true
    → ((run ps (init l m)).in_target && (run ps (init l m)).in_source) ≡ false
run-exclusive l m ps h =
    let v = run-IsValid m ps (init l m) (init-IsValid l m h) in ground (arith, v.target, v.source)

-- For participants on the same node and any order of their actions, where the guard is made in local
-- mode: the counterpart has ended as many epochs as the owner or one less.
pub run-alternates :
    (l : Locality) (ps : List Participant)
    → is_guarded l ≡ true
    → let s = run ps (init l AccessMode.local) in
      (s.sources ≤ s.targets) × (s.targets ≤ s.sources + 1)
run-alternates l ps h =
    let v =
      run-IsValid AccessMode.local ps (init l AccessMode.local)
        (init-IsValid l AccessMode.local h) in
    ground (arith, v.counts)

-- For participants on the same node, a guard made in either mode, and any order of their actions: at
-- every moment exactly one of the two is within an epoch or would start one.
pub run-one_can_act :
    (l : Locality) (m : AccessMode) (ps : List Participant)
    → is_guarded l ≡ true
    → (let s = run ps (init l m) in
        (s.in_target || try_start_target_epoch s.guard)
        ≡ not (s.in_source || try_start_source_epoch s.guard))
run-one_can_act l m ps h =
    let v = run-IsValid m ps (init l m) (init-IsValid l m h) in
    ground (arith, v.target, v.source, v.opposite)
