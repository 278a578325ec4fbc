-- ===== src/Rma/AccessGuard.antt =====
-- include/ghex/rma/access_guard.hpp and its implementation for threads in rma/thread/access_guard.hpp:
-- the guard that the owner of a resource and its remote counterpart share, and their epochs. Waiting
-- on the condition variable is an action that leaves the state as it is while the condition fails.
pub mod Epochs
use ghex.Base.{ℕ, ◌+◌, Bool, true, false, List, [], ◌∷◌, if◌then◌else◌}

-- `access_mode`
pub data AccessMode : Type 0 where
  local remote : AccessMode

-- `locality`: the counterpart is on another node, in another process, in another thread.
pub data Locality : Type 0 where
  remote process thread : Locality

-- Of a guard's two state machines its locality selects one.
pub record Guard : Type 0 where
  pub locality : Locality
  pub thread_guard : AccessMode
  pub process_guard : AccessMode

abbrev pub is_local : AccessMode → Bool
is_local AccessMode.local = true
is_local AccessMode.remote = false

abbrev pub is_remote : AccessMode → Bool
is_remote AccessMode.local = false
is_remote AccessMode.remote = true

-- The constructor.
unfoldable pub make : Locality → AccessMode → Guard
make loc m = record { locality = loc; thread_guard = m; process_guard = m }

abbrev select : {A : Type 0} → Locality → A → A → A → A
select Locality.thread t p r = t
select Locality.process t p r = p
select Locality.remote t p r = r

-- The condition that `start_target_epoch` waits for.
unfoldable pub try_start_target_epoch : Guard → Bool
try_start_target_epoch g =
    select g.locality (is_local g.thread_guard) (is_local g.process_guard) true

unfoldable pub end_target_epoch : Guard → Guard
end_target_epoch g =
    select g.locality (record g { thread_guard = AccessMode.remote })
      (record g { process_guard = AccessMode.remote }) g

unfoldable pub try_start_source_epoch : Guard → Bool
try_start_source_epoch g =
    select g.locality (is_remote g.thread_guard) (is_remote g.process_guard) true

unfoldable pub end_source_epoch : Guard → Guard
end_source_epoch g =
    select g.locality (record g { thread_guard = AccessMode.local })
      (record g { process_guard = AccessMode.local }) g

-- The two participants: whether each is within an epoch, and how many it has ended.
pub record Run : Type 0 where
  pub guard : Guard
  pub in_target : Bool
  pub in_source : Bool
  pub targets : ℕ
  pub sources : ℕ

pub data Participant : Type 0 where
  owner counterpart : Participant

-- The next action of a participant: to start an epoch, or to end the one that it is in.
unfoldable pub act : Participant → Run → Run
unfolding try_start_target_epoch end_target_epoch try_start_source_epoch end_source_epoch
act Participant.owner s =
    if s.in_target
    then record s { guard = end_target_epoch s.guard; in_target = false; targets = s.targets + 1 }
    else if try_start_target_epoch s.guard
    then record s { in_target = true }
    else s
act Participant.counterpart s =
    if s.in_source
    then record s { guard = end_source_epoch s.guard; in_source = false; sources = s.sources + 1 }
    else if try_start_source_epoch s.guard
    then record s { in_source = true }
    else s

unfoldable pub run : List Participant → Run → Run
unfolding act
run [] s = s
run (p ∷ ps) s = run ps (act p s)

unfoldable pub init : Locality → AccessMode → Run
unfolding make
init loc m = record {
  guard = make loc m;
  in_target = false;
  in_source = false;
  targets = 0;
  sources = 0;
}
