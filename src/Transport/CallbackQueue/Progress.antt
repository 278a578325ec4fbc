-- ===== src/Transport/CallbackQueue/Progress.antt =====
-- include/ghex/transport_layer/callback_utils.hpp: the loop of `progress`.
use ghex.Base.{
  ℕ, zero, suc, ◌+◌, ◌-◌, ◌<◌, ◌≡◌, refl, ap, ◌∙◌, Bool, true, false, List, [], ◌∷◌, Option, none,
  some, ltb, length, get_elem?, set, arith, ◌≢◌, get_elem?-set_ne, length-set, get_elem?-lt,
  get_elem?-some, Option-cases, Bool-cases, inl, inr,
}
use ghex.Transport.CallbackQueue.{
  Element, Queue, pop_back, back, remove_at, complete, progress_loop,
}
use ghex.Transport.CallbackQueue.Invariant.{
  IsValid, length-pop_back, back-get_elem?, complete-IsValid,
}

abbrev bit : Bool → ℕ
bit true = 1
bit false = 0

-- The number of messages with property `f` among those whose callback has been called, and among the
-- waiting ones.
abbrev pub called_tally : {Msg : Type 0} → (Msg → Bool) → List Msg → ℕ
called_tally f [] = 0
called_tally f (m ∷ l) = bit (f m) + called_tally f l

module _ {Msg Future : Type 0} (f : Msg → Bool) where
  abbrev pub waiting_tally : List (Element Msg Future) → ℕ
  waiting_tally [] = 0
  waiting_tally (e ∷ l) = bit (f e.msg) + waiting_tally l

  tally-set :
      (l : List (Element Msg Future)) (i : ℕ) (d e : Element Msg Future)
      → get_elem? l i ≡ some d
      → waiting_tally (set l i e) + bit (f d.msg) ≡ waiting_tally l + bit (f e.msg)
  tally-set [] i d e g = cc
  tally-set (x ∷ l) zero d e g = ground arith
  tally-set (x ∷ l) (suc i) d e g = omega (arith, tally-set l i d e g)

  tally-pop_back :
      (l : List (Element Msg Future)) (e : Element Msg Future)
      → back l ≡ some e
      → waiting_tally (pop_back l) + bit (f e.msg) ≡ waiting_tally l
  unfolding back pop_back
  tally-pop_back [] e h = cc
  tally-pop_back (x ∷ []) e h = ground arith
  tally-pop_back (x ∷ (y ∷ l)) e h = omega (arith, tally-pop_back (y ∷ l) e h)

module _ {Msg Future : Type 0} (q : Queue Msg Future) (i : ℕ) (d : Element Msg Future) where
  -- What a removal changes.
  abbrev Removed : Queue Msg Future → Type 0
  Removed r =
      ((f : Msg → Bool) → waiting_tally f r.queue + bit (f d.msg) ≡ waiting_tally f q.queue)
      × (length r.queue + 1 ≡ length q.queue)
      × (r.called ≡ q.called)

  remove_at-Removed : get_elem? q.queue i ≡ some d → Removed (remove_at i q)
  unfolding remove_at
  remove_at-Removed g = elim (Bool-cases (ltb (i + 1) (length q.queue))) [
    | inl inner ↦
        let below = get_elem?-lt q.queue i d g in
        let inside : i + 1 < length q.queue = ground arith in
        let n = length q.queue - 1 in
        let len : length q.queue ≡ suc n = omega (arith, below) in
        let (b, gb) = get_elem?-some q.queue n (omega (arith, below)) in
        let l = set q.queue i b in
        let len' : length l ≡ suc n = length-set q.queue i b ∙ len in
        let i-ne-n : i ≢ n = λ e. absurd (omega (arith, e)) in
        let last : back l ≡ some b =
          back-get_elem? l n len' ∙ get_elem?-set_ne q.queue b i-ne-n ∙ gb in
        rw (inner, back-get_elem? q.queue n len, gb, remove_at)
          (
            (λ f. omega (arith, tally-set f q.queue i d b g, tally-pop_back f l b last)),
            omega (arith, length-pop_back l n len'),
            refl,
          )
    | inr outer ↦
        let below = get_elem?-lt q.queue i d g in
        let len : length q.queue ≡ suc i = ground arith in
        rw (outer, remove_at)
          (
            (λ f. tally-pop_back f q.queue d (back-get_elem? q.queue i len ∙ g)),
            omega (arith, length-pop_back q.queue i len),
            refl,
          )
  ]

module _ {Msg Future : Type 0} where
  -- The messages with property `f`, waiting or called.
  abbrev pub tally : (Msg → Bool) → Queue Msg Future → ℕ
  tally f q = waiting_tally f q.queue + called_tally f q.called

  complete-tally :
      (q : Queue Msg Future) (i : ℕ)
      → i < length q.queue
      → ((f : Msg → Bool) → tally f (complete i q) ≡ tally f q)
        × (length (complete i q).queue + 1 ≡ length q.queue)
  unfolding complete
  complete-tally q i h =
      let (d, g) = get_elem?-some q.queue i h in
      rw (g, complete)
        (let (t, l, c) = remove_at-Removed _ i d g in
          ((λ f. omega (arith, t f, ap (called_tally f) c)), l))

  module _ (test_any : List (Element Msg Future) → Option ℕ)
      (in_range : (l : List (Element Msg Future)) (i : ℕ)
        → test_any l ≡ some i
        → i < length l) where
    -- What `progress` has done when it returns.
    abbrev pub Progressed : Queue Msg Future → ℕ → ℕ → Queue Msg Future → Type 0
    Progressed q before completed r =
        IsValid r
        × (test_any r.queue ≡ none)
        × (completed + length r.queue ≡ before + length q.queue)
        × ((f : Msg → Bool) → tally f r ≡ tally f q)

    -- From a valid queue, with fuel for every element, and a test that names positions of the queue
    -- only, `progress` returns; then the test finds no ready future, the count of completed elements
    -- has grown by the number that has left the queue, each message is waiting or has had its
    -- callback called as often in all as before, and the queue is valid.
    pub progress_loop_total :
        (fuel : ℕ) (q : Queue Msg Future) (before : ℕ)
        → length q.queue < fuel
        → IsValid q
        → (completed : ℕ) × (r : Queue Msg Future) × (progress_loop test_any fuel q before
            ≡ some (completed, r))
          × Progressed q before completed r
    unfolding progress_loop
    progress_loop_total zero q before h valid = elim h [ ]
    progress_loop_total (suc fuel) q before h valid = elim (Option-cases (test_any q.queue)) [
      | inl e ↦ (before, q, rw (e, progress_loop) refl, (valid, e, refl, λ f. refl))
      | inr (i, e) ↦
          let below = in_range q.queue i e in
          let (t, l) = complete-tally q i below in
          let (completed, r, p, (v, stop, n, k)) =
            progress_loop_total fuel (complete i q) (before + 1) (omega arith)
              (complete-IsValid q valid i below) in
          (completed, r, rw (e, progress_loop) p, (v, stop, omega arith, λ f. k f ∙ t f))
    ]
