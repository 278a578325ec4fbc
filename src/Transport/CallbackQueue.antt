-- ===== src/Transport/CallbackQueue.antt =====
-- include/ghex/transport_layer/callback_utils.hpp: `callback_queue`, the sends or receives that wait
-- for completion, and the handles (`request`) that their callers keep. The states that the handles
-- share are a store; a handle is an index of the store. Futures belong to the transport: they are a
-- type with a test for completion and a cancel operation, parameters below. A callback is recorded in
-- the log when it is called; it does not call back into the queue here.
pub mod Invariant
pub mod Progress
use ghex.Base.{
  ℕ, zero, suc, ◌+◌, Bool, true, false, List, [], ◌∷◌, ◌++◌, Option, none, some, if◌then◌else◌, ltb,
  length, get_elem?, set,
}

-- `request_state`
pub record RequestState : Type 0 where
  pub ready : Bool
  pub index : ℕ

-- `element_type`: message, rank and tag are one value of type `Msg`; `request` is the handle.
pub record Element (Msg Future : Type 0) : Type 0 where
  pub msg : Msg
  pub future : Future
  pub request : ℕ

pub record Queue (Msg Future : Type 0) : Type 0 where
  pub queue : List (Element Msg Future)
  pub states : List RequestState
  pub called : List Msg
  pub progressed_cancels : ℕ

-- Assignments to fields of the shared state behind a handle.
unfoldable pub set_ready : ℕ → List RequestState → List RequestState
set_ready r s = elim (get_elem? s r) [ none ↦ s | some t ↦ set s r (record t { ready = true }) ]

unfoldable pub set_index : ℕ → ℕ → List RequestState → List RequestState
set_index r i s = elim (get_elem? s r) [ none ↦ s | some t ↦ set s r (record t { index = i }) ]

module _ {Msg Future : Type 0} where
  unfoldable pub empty : Queue Msg Future
  empty = record { queue = []; states = []; called = []; progressed_cancels = 0 }

  -- `enqueue`: the new handle, and the queue with the new element at its end.
  unfoldable pub enqueue : Msg → Future → Queue Msg Future → ℕ × Queue Msg Future
  enqueue m f q =
      let r = length q.states in
      (
        r,
        record q {
          queue = q.queue ++ (record { msg = m; future = f; request = r } ∷ []);
          states = q.states ++ (record { ready = false; index = length q.queue } ∷ []);
        },
      )

  -- `element = std::move(m_queue.back())` at position `i`, which is not the last, and `pop_back`.
  unfoldable pub pop_back : List (Element Msg Future) → List (Element Msg Future)
  pop_back [] = []
  pop_back (x ∷ []) = []
  pop_back (x ∷ (y ∷ l)) = x ∷ pop_back (y ∷ l)

  unfoldable pub back : List (Element Msg Future) → Option (Element Msg Future)
  back [] = none
  back (x ∷ []) = some x
  back (x ∷ (y ∷ l)) = back (y ∷ l)

  -- The removal of position `i` that `progress` and `cancel` share: the last element takes the place,
  -- unless it is the last itself, and its handle learns the new position.
  unfoldable pub remove_at : ℕ → Queue Msg Future → Queue Msg Future
  unfolding pop_back back set_index
  remove_at i q =
      if ltb (i + 1) (length q.queue)
      then elim (back q.queue) [
        | none ↦ q
        | some e ↦ record q {
          queue = pop_back (set q.queue i e);
          states = set_index e.request i q.states;
        }
      ]
      else record q { queue = pop_back q.queue }

  -- The body of the loop of `progress`, for the element at position `i` whose future is ready.
  unfoldable pub complete : ℕ → Queue Msg Future → Queue Msg Future
  unfolding remove_at set_ready
  complete i q = elim (get_elem? q.queue i) [
    | none ↦ q
    | some e ↦
        remove_at i (record q { called = e.msg ∷ q.called; states = set_ready e.request q.states })
  ]

  -- `future_type::test_any` finds some position whose future is ready. Which one is up to the
  -- transport: `progress` takes the answers as an oracle over the queue's contents.
  unfoldable pub progress_loop :
      (List (Element Msg Future) → Option ℕ)
      → ℕ
      → Queue Msg Future
      → ℕ
      → Option (ℕ × Queue Msg Future)
  unfolding complete
  progress_loop test_any zero q completed = none
  progress_loop test_any (suc fuel) q completed = elim (test_any q.queue) [
    | none ↦ some (completed, q)
    | some i ↦ progress_loop test_any fuel (complete i q) (completed + 1)
  ]

  -- `cancel`: `cancelled` is what the future's own `cancel` returned.
  unfoldable pub cancel : Bool → ℕ → Queue Msg Future → Bool × Queue Msg Future
  unfolding remove_at
  cancel cancelled i q =
      if cancelled
      then (let r = remove_at i q in
          (true, record r { progressed_cancels = r.progressed_cancels + 1 }))
      else (false, q)
