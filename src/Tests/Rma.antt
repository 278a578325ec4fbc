-- ===== src/Tests/Rma.antt =====
-- include/ghex/rma/access_guard.hpp on concrete inputs.
use ghex.Base.{◌≡◌, ◌≤◌, ◌+◌, refl, false, ◌&&◌, ◌||◌, not, List, [], ◌∷◌}
use ghex.Rma.AccessGuard.{
  AccessMode, Locality, Participant, try_start_target_epoch, try_start_source_epoch, run, init,
}
use ghex.Rma.AccessGuard.Epochs.{run-exclusive, run-alternates, run-one_can_act}

-- The counterpart tries first, then the owner goes through an epoch, then the counterpart.
abbrev turns : List Participant
turns =
    Participant.counterpart ∷ Participant.owner ∷ Participant.owner ∷ Participant.owner
    ∷ Participant.counterpart ∷ []

after_turns : (run turns (init Locality.thread AccessMode.local)).targets ≡ 1
unfolding run init
after_turns = refl

run-exclusive_example :
    ((run turns (init Locality.thread AccessMode.remote)).in_target
      && (run turns (init Locality.thread AccessMode.remote)).in_source)
    ≡ false
run-exclusive_example = run-exclusive Locality.thread AccessMode.remote turns refl

run-alternates_example :
    let s = run turns (init Locality.process AccessMode.local) in
    (s.sources ≤ s.targets) × (s.targets ≤ s.sources + 1)
run-alternates_example = run-alternates Locality.process turns refl

run-one_can_act_example :
    let s = run turns (init Locality.thread AccessMode.local) in
    (s.in_target || try_start_target_epoch s.guard)
    ≡ not (s.in_source || try_start_source_epoch s.guard)
run-one_can_act_example = run-one_can_act Locality.thread AccessMode.local turns refl
