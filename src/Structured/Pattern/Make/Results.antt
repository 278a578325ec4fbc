-- ===== src/Structured/Pattern/Make/Results.antt =====
-- include/ghex/structured/pattern.hpp: the exchange at all ranks.
use mathlib.Core.Logic.{◌≢◌}
use mathlib.Core.Option.{some-injective}
use native.Mathlib.Decide.{}
use ghex.Base.{
  ℕ, zero, suc, ◌+◌, ◌≡◌, refl, sym, ap, ◌∙◌, subst, List, [], ◌∷◌, none, some, arith, ◌==◌, map,
  Bool-cases, inl, inr, get_elem?,
}
use ghex.Base.Membership.{Distinct}
use ghex.Structured.Space.{Box2}
use ghex.Structured.Pattern.Domains.{ExtendedId, Halos, Pattern, RankMap}
use ghex.Structured.Pattern.Make.{Local, connect_ranks}
use ghex.Structured.Pattern.Make.Find.{find}
use ghex.Structured.Pattern.Make.Sends.{sent}
use ghex.Structured.Pattern.Make.Grow.{domain_of, ids}
use ghex.Structured.Pattern.Make.Rounds.{
  AllFit, grow_all, grow_all_skip, grow_all_turn, grow_from, connect_all-grow,
}
use ghex.Structured.Pattern.Make.Gain.{Silent, SilentBut}

module _ {n : ℕ} where
  -- All that the exchange leaves alone.
  abbrev pub frame : Pattern n → ExtendedId × Box2 n × Halos n
  frame p = (p.id, p.extents, p.recv_halos)

  pub grow_all-frame :
      (me r : ℕ) (ms : List (RankMap n)) (p : Pattern n) → frame (grow_all me r ms p) ≡ frame p
  grow_all-frame me r [] p = refl
  grow_all-frame me r (m ∷ ms) p = elim (Bool-cases (r == me)) [
    | inl e ↦ ap frame (grow_all_skip me r m ms p e) ∙ grow_all-frame me (r + 1) ms p
    | inr e ↦
        ap frame (grow_all_turn me r m ms p e) ∙ grow_all-frame me (r + 1) ms (grow_from me m p)
  ]

  -- The patterns of all ranks from `r` on, after the exchange.
  abbrev pub results : List (RankMap n) → ℕ → List (Local n) → List (List (Pattern n))
  results maps r [] = []
  results maps r (l ∷ ls) = map (grow_all r 0 maps) l.patterns ∷ results maps (r + 1) ls

  abbrev pub AllReady : List (RankMap n) → ℕ → List (Local n) → Type 0
  AllReady maps r [] = Unit {0}
  AllReady maps r (l ∷ ls) =
      (AllFit r 0 (ids l.patterns) maps × Distinct domain_of l.patterns) × AllReady maps (r + 1) ls

  pub connect_ranks-results :
      (maps : List (RankMap n)) (r : ℕ) (ls : List (Local n))
      → AllReady maps r ls
      → connect_ranks maps r ls ≡ some (results maps r ls)
  unfolding connect_ranks
  connect_ranks-results maps r [] a = refl
  connect_ranks-results maps r (l ∷ ls) a =
      rw
        (
          connect_all-grow r 0 maps l.patterns a.0.0 a.0.1,
          connect_ranks-results maps (r + 1) ls a.1,
        )
        refl

  pub results-get :
      (maps : List (RankMap n)) (r j k : ℕ) (ls : List (Local n)) (qs : List (Pattern n))
      → get_elem? (results maps r ls) j ≡ some qs
      → k ≡ r + j
      → (l : Local n) × (get_elem? ls j ≡ some l) × (qs ≡ map (grow_all k 0 maps) l.patterns)
  results-get maps r j k [] qs g e = cc
  results-get maps r zero k (l ∷ ls) qs g e =
      let at : r ≡ k = omega arith in
      (
        l,
        refl,
        subst (λ i. qs ≡ map (grow_all i 0 maps) l.patterns) at
            (sym (some-injective (map (grow_all r 0 maps) l.patterns) qs g)),
      )
  results-get maps r (suc j) k (l ∷ ls) qs g e = results-get maps (r + 1) j k ls qs g (omega arith)

  pub results_at :
      (maps : List (RankMap n)) (r j k : ℕ) (ls : List (Local n)) (l : Local n)
      → get_elem? ls j ≡ some l
      → k ≡ r + j
      → get_elem? (results maps r ls) j ≡ some (map (grow_all k 0 maps) l.patterns)
  results_at maps r j k [] l g e = cc
  results_at maps r zero k (x ∷ ls) l g e =
      let at : r ≡ k = omega arith in
      subst
        (λ i. some (map (grow_all r 0 maps) x.patterns) ≡ some (map (grow_all i 0 maps) l.patterns))
        at (ap (λ (y : Local n). some (map (grow_all r 0 maps) y.patterns)) (some-injective x l g))
  results_at maps r (suc j) k (x ∷ ls) l g e = results_at maps (r + 1) j k ls l g (omega arith)

  module _ (me id : ℕ) (k : ExtendedId) where
    -- The same by positions.
    pub Silent-of_places :
        (r : ℕ) (ms : List (RankMap n))
        → ((j : ℕ) (m : RankMap n)
            → get_elem? ms j ≡ some m
            → r + j ≢ me
            → find k (sent m me id) ≡ none)
        → Silent me r id k ms
    Silent-of_places r [] h = tt
    Silent-of_places r (m ∷ ms) h = (
      λ ne. h 0 m refl (λ e. ne (omega arith)),
      Silent-of_places (r + 1) ms (λ j x g ne. h (suc j) x g (λ e. ne (omega arith))),
    )

    pub SilentBut-of_places :
        (i r : ℕ) (ms : List (RankMap n))
        → ((j : ℕ) (m : RankMap n)
            → get_elem? ms j ≡ some m
            → j ≢ i
            → r + j ≢ me
            → find k (sent m me id) ≡ none)
        → SilentBut me i r id k ms
    SilentBut-of_places i r [] h = tt
    SilentBut-of_places zero r (m ∷ ms) h =
        Silent-of_places (r + 1) ms
          (λ j x g ne. h (suc j) x g (λ e. omega arith) (λ e. ne (omega arith)))
    SilentBut-of_places (suc i) r (m ∷ ms) h = (
      λ ne. h 0 m refl (λ e. omega arith) (λ e. ne (omega arith)),
      SilentBut-of_places i (r + 1) ms
          (λ j x g d ne. h (suc j) x g (λ e. d (omega arith)) (λ e. ne (omega arith))),
    )
