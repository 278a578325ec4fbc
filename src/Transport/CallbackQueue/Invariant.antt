-- ===== src/Transport/CallbackQueue/Invariant.antt =====
-- include/ghex/transport_layer/callback_utils.hpp: the positions that handles hold.
use ghex.Base.{
  ℕ, zero, suc, ◌+◌, ◌-◌, ◌<◌, ◌≡◌, ◌≢◌, refl, sym, ap, ◌∙◌, Bool, true, false, List, [], ◌∷◌, ◌++◌,
  get_elem?-lt, get_elem?-some, get_elem?-append_left, get_elem?-append_right, length-append, some,
  ltb, length, get_elem?, set, arith, length-set, get_elem?-set_self, get_elem?-set_ne,
  Option-cases, Bool-cases, inl, inr,
}
use native.Mathlib.Decide.{ℕ_discrete, dec_lt}
use native.Mathlib.Nat.{add-zero}
use ghex.Transport.CallbackQueue.{
  RequestState, Element, Queue, enqueue, pop_back, back, set_ready, set_index, remove_at, complete,
  cancel,
}

abbrev pub waiting : ℕ → RequestState
waiting i = record { ready = false; index = i }

module _ {Msg Future : Type 0} where
  -- The handle of the element at each position, except perhaps at `k`, is not ready and holds the
  -- position.
  abbrev pub HandlesExcept : ℕ → Queue Msg Future → Type 0
  HandlesExcept k q =
      (i : ℕ) (e : Element Msg Future)
      → i ≢ k
      → get_elem? q.queue i ≡ some e
      → get_elem? q.states e.request ≡ some (waiting i)

  -- The invariant: so no two elements share a handle.
  abbrev pub IsValid : Queue Msg Future → Type 0
  IsValid q =
      (i : ℕ) (e : Element Msg Future)
      → get_elem? q.queue i ≡ some e
      → get_elem? q.states e.request ≡ some (waiting i)

  pub get_elem?-pop_back :
      (l : List (Element Msg Future)) (j : ℕ)
      → suc j < length l
      → get_elem? (pop_back l) j ≡ get_elem? l j
  unfolding pop_back
  get_elem?-pop_back [] j h = elim h [ ]
  get_elem?-pop_back (x ∷ []) j h = absurd (omega arith)
  get_elem?-pop_back (x ∷ (y ∷ l)) zero h = refl
  get_elem?-pop_back (x ∷ (y ∷ l)) (suc j) h = get_elem?-pop_back (y ∷ l) j (omega arith)

  pub length-pop_back :
      (l : List (Element Msg Future)) (n : ℕ) → length l ≡ suc n → length (pop_back l) ≡ n
  unfolding pop_back
  length-pop_back [] n h = absurd (omega arith)
  length-pop_back (x ∷ []) n h = omega arith
  length-pop_back (x ∷ (y ∷ l)) zero h = absurd (omega arith)
  length-pop_back (x ∷ (y ∷ l)) (suc n) h = omega (arith, length-pop_back (y ∷ l) n (omega arith))

  pub back-get_elem? :
      (l : List (Element Msg Future)) (n : ℕ) → length l ≡ suc n → back l ≡ get_elem? l n
  unfolding back
  back-get_elem? [] n h = absurd (omega arith)
  back-get_elem? (x ∷ []) zero h = refl
  back-get_elem? (x ∷ []) (suc n) h = absurd (omega arith)
  back-get_elem? (x ∷ (y ∷ l)) zero h = absurd (omega arith)
  back-get_elem? (x ∷ (y ∷ l)) (suc n) h = back-get_elem? (y ∷ l) n (omega arith)

set_index_self :
    (r i : ℕ) (s : List RequestState) (t : RequestState)
    → get_elem? s r ≡ some t
    → get_elem? (set_index r i s) r ≡ some (record t { index = i })
unfolding set_index
set_index_self r i s t h = rw (h, set_index) (get_elem?-set_self s r _ (get_elem?-lt s r t h))

set_index_ne :
    (r i k : ℕ) (s : List RequestState) → r ≢ k → get_elem? (set_index r i s) k ≡ get_elem? s k
unfolding set_index
set_index_ne r i k s h = elim (Option-cases (get_elem? s r)) [
  | inl e ↦ rw (e, set_index) refl
  | inr (t, e) ↦ rw (e, set_index) (get_elem?-set_ne s _ h)
]

pub set_ready_self :
    (r : ℕ) (s : List RequestState) (t : RequestState)
    → get_elem? s r ≡ some t
    → get_elem? (set_ready r s) r ≡ some (record t { ready = true })
unfolding set_ready
set_ready_self r s t h = rw (h, set_ready) (get_elem?-set_self s r _ (get_elem?-lt s r t h))

set_ready_ne :
    (r k : ℕ) (s : List RequestState) → r ≢ k → get_elem? (set_ready r s) k ≡ get_elem? s k
unfolding set_ready
set_ready_ne r k s h = elim (Option-cases (get_elem? s r)) [
  | inl e ↦ rw (e, set_ready) refl
  | inr (t, e) ↦ rw (e, set_ready) (get_elem?-set_ne s _ h)
]

waiting-injective : {i j : ℕ} → some (waiting i) ≡ some (waiting j) → i ≡ j
waiting-injective h = cc

module _ {Msg Future : Type 0} (q : Queue Msg Future) (i : ℕ) (valid : HandlesExcept i q) where
  moved :
      (n : ℕ) (b : Element Msg Future)
      → length q.queue ≡ suc n
      → i < n
      → get_elem? q.queue n ≡ some b
      → (j : ℕ) (e : Element Msg Future) → get_elem? (pop_back (set q.queue i b)) j ≡ some e
      → get_elem? (set_index b.request i q.states) e.request ≡ some (waiting j)
  moved n b len h gb j e g =
      let below : j < n = omega (
        arith,
        get_elem?-lt (pop_back (set q.queue i b)) j e g,
        length-pop_back (set q.queue i b) n (length-set q.queue i b ∙ len),
      ) in
      let here : get_elem? (set q.queue i b) j ≡ some e =
        sym (get_elem?-pop_back (set q.queue i b) j (omega (arith, length-set q.queue i b))) ∙ g in
      let at_n = valid n b (λ e. absurd (omega (arith, e))) gb in
      moved_at (ℕ_discrete i j) below here at_n
    where
      moved_at :
          Dec (i ≡ j)
          → j < n
          → get_elem? (set q.queue i b) j ≡ some e
          → get_elem? q.states b.request ≡ some (waiting n)
          → get_elem? (set_index b.request i q.states) e.request ≡ some (waiting j)
      moved_at (yes same) below here at_n =
          let p : some e ≡ some b =
            sym here
            ∙ ap (get_elem? (set q.queue i b)) (sym same)
            ∙ get_elem?-set_self q.queue i b (omega arith) in
          let e-eq-b : e ≡ b = cc in
          ap (λ t. get_elem? (set_index b.request i q.states) (Element.request t)) e-eq-b
          ∙ set_index_self b.request i q.states (waiting n) at_n
          ∙ ap (λ k. some (waiting k)) same
      moved_at (no other) below here at_n =
          let kept =
            valid j e (λ x. other (sym x)) (sym (get_elem?-set_ne q.queue b other) ∙ here) in
          set_index_ne b.request i e.request q.states (λ r.
            absurd (omega (arith, waiting-injective (sym at_n ∙ ap (get_elem? q.states) r ∙ kept))))
          ∙ kept

  -- Removing position `i`, where alone the invariant may fail, restores it.
  pub remove_at-IsValid : i < length q.queue → IsValid (remove_at i q)
  unfolding remove_at
  remove_at-IsValid h = elim (Bool-cases (ltb (i + 1) (length q.queue))) [
    | inl inner ↦
        let n = length q.queue - 1 in
        let len : length q.queue ≡ suc n = omega arith in
        let (b, gb) = get_elem?-some q.queue n (omega arith) in
        rw (inner, back-get_elem? q.queue n len, gb, remove_at) (moved n b len (ground arith) gb)
    | inr last ↦
        let len : length q.queue ≡ suc i = ground arith in
        rw (last, remove_at)
          λ j e g.
            let below : j < i =
              omega (arith, get_elem?-lt (pop_back q.queue) j e g, length-pop_back q.queue i len) in
            valid j e (λ x. absurd (omega (arith, x)))
              (sym (get_elem?-pop_back q.queue j (omega arith)) ∙ g)
  ]

module _ {Msg Future : Type 0} (q : Queue Msg Future) (valid : IsValid q) where
  -- Distinct positions have distinct handles.
  requests_distinct :
      (i j : ℕ) (d e : Element Msg Future)
      → get_elem? q.queue i ≡ some d
      → get_elem? q.queue j ≡ some e
      → j ≢ i
      → d.request ≢ e.request
  requests_distinct i j d e hi hj other r = absurd (
      other
        (sym (waiting-injective (sym (valid i d hi) ∙ ap (get_elem? q.states) r ∙ valid j e hj))))

  -- Completing the element at a position of a valid queue gives a valid queue: the handle of every
  -- element that still waits is not ready and holds the element's present position.
  pub complete-IsValid : (i : ℕ) → i < length q.queue → IsValid (complete i q)
  unfolding complete
  complete-IsValid i h =
      let (d, g) = get_elem?-some q.queue i h in
      rw (g, complete)
        (remove_at-IsValid _ i
          (λ j e other hj.
            set_ready_ne d.request e.request q.states (requests_distinct i j d e g hj other)
            ∙ valid j e hj)
          h)

  -- Cancelling the element at a position of a valid queue gives a valid queue, whether or not the
  -- transport grants the cancellation.
  pub cancel-IsValid :
      (granted : Bool) (i : ℕ) → i < length q.queue → IsValid (cancel granted i q).1
  unfolding cancel
  cancel-IsValid true i h = remove_at-IsValid q i (λ j e _ g. valid j e g) h
  cancel-IsValid false i h = valid

  -- Adding an element to a valid queue gives a valid queue.
  pub enqueue-IsValid : (m : Msg) (f : Future) → IsValid (enqueue m f q).1
  unfolding enqueue
  enqueue-IsValid m f i e g = enqueued (dec_lt i (length q.queue))
    where
      new : Element Msg Future
      new = record { msg = m; future = f; request = length q.states }

      fresh : RequestState
      fresh = waiting (length q.queue)

      enqueued :
          Dec (i < length q.queue)
          → get_elem? (q.states ++ (fresh ∷ [])) e.request ≡ some (waiting i)
      enqueued (yes old) =
          let (d, k) = get_elem?-some q.queue i old in
          let p : some e ≡ some d = sym g ∙ get_elem?-append_left q.queue (new ∷ []) i d k in
          let e-eq-d : e ≡ d = cc in
          get_elem?-append_left q.states (fresh ∷ []) e.request (waiting i) (valid i e (k ∙ sym p))
      enqueued (no last) =
          let at_end : i ≡ length q.queue + 0 =
            omega (
              arith,
              get_elem?-lt (q.queue ++ (new ∷ [])) i e g,
              length-append q.queue (new ∷ []),
            ) in
          let p : some e ≡ some new =
            sym g ∙ get_elem?-append_right q.queue (new ∷ []) 0 i at_end in
          let e-eq-new : e ≡ new = cc in
          get_elem?-append_right q.states (fresh ∷ []) 0 e.request
            (ap (λ t. Element.request t) e-eq-new ∙ sym (add-zero _))
          ∙ ap (λ k. some (waiting k)) (omega arith)
