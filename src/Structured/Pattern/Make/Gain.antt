-- ===== src/Structured/Pattern/Make/Gain.antt =====
-- include/ghex/structured/pattern.hpp: what a pattern's send halos hold after the loop over all ranks.
use mathlib.Core.Logic.{◌≢◌}
use ghex.Base.{
  ℕ, zero, suc, ◌+◌, ◌≡◌, refl, sym, ap, ◌∙◌, subst, false, List, [], ◌∷◌, ◌++◌, none, some, arith,
  ◌==◌, Bool-cases, inl, inr, All, get_elem?,
}
use ghex.Structured.Space.{Box2}
use ghex.Structured.Pattern.Domains.{ExtendedId, Pattern, RankMap}
use ghex.Structured.Pattern.Make.Find.{find, find-none, find-merge-Apart, find-merge_new}
use ghex.Structured.Pattern.Make.Sends.{sent}
use ghex.Structured.Pattern.Make.Rounds.{
  AllSorted, sent-IsSorted, grow_from, grow_all, grow_all_skip, grow_all_turn,
}

differs : (a b : ℕ) → (a == b) ≡ false → a ≢ b
differs a b h = ground arith

module _ {n : ℕ} (me : ℕ) where
  -- What the maps of the other ranks from `r` on do not have for a key is not found anew.
  abbrev pub Silent : ℕ → ℕ → ExtendedId → List (RankMap n) → Type 0
  Silent r id k [] = Unit {0}
  Silent r id k (m ∷ ms) = (r ≢ me → find k (sent m me id) ≡ none) × Silent (r + 1) id k ms

  pub find-grow_none :
      (k : ExtendedId) (m : RankMap n) (p : Pattern n)
      → AllSorted m
      → find k (sent m me p.id.id) ≡ none
      → find k (grow_from me m p).send_halos ≡ find k p.send_halos
  find-grow_none k m p s e =
      find-merge-Apart ◌++◌ k (sent m me p.id.id) p.send_halos
        (find-none k (sent m me p.id.id) (sent-IsSorted me p.id.id m s) e)

  pub find-grow_all-Silent :
      (k : ExtendedId) (r : ℕ) (ms : List (RankMap n)) (p : Pattern n)
      → All AllSorted ms
      → Silent r p.id.id k ms
      → find k (grow_all me r ms p).send_halos ≡ find k p.send_halos
  find-grow_all-Silent k r [] p s h = refl
  find-grow_all-Silent k r (m ∷ ms) p s h = elim (Bool-cases (r == me)) [
    | inl e ↦ opened (grow_all_skip me r m ms p e) ∙ find-grow_all-Silent k (r + 1) ms p s.1 h.1
    | inr e ↦
        opened (grow_all_turn me r m ms p e)
        ∙ find-grow_all-Silent k (r + 1) ms (grow_from me m p) s.1 h.1
        ∙ find-grow_none k m p s.0 (h.0 (differs r me e))
  ]
    where
      opened : {a b : Pattern n} → a ≡ b → find k a.send_halos ≡ find k b.send_halos
      opened h = ap (λ z. find k z.send_halos) h

  -- All but the map at the position `j` have nothing for the key.
  abbrev pub SilentBut : ℕ → ℕ → ℕ → ExtendedId → List (RankMap n) → Type 0
  SilentBut j r id k [] = Unit {0}
  SilentBut zero r id k (m ∷ ms) = Silent (r + 1) id k ms
  SilentBut (suc j) r id k (m ∷ ms) =
      (r ≢ me → find k (sent m me id) ≡ none) × SilentBut j (r + 1) id k ms

  -- What one map has for a key, and no other, is found as it stands there.
  pub find-grow_all :
      (k : ExtendedId) (j r : ℕ) (ms : List (RankMap n)) (p : Pattern n) (m : RankMap n)
      (x : ExtendedId × List (Box2 n))
      → All AllSorted ms
      → get_elem? ms j ≡ some m
      → j + r ≢ me
      → SilentBut j r p.id.id k ms
      → find k (sent m me p.id.id) ≡ some x
      → find k p.send_halos ≡ none
      → find k (grow_all me r ms p).send_halos ≡ some x
  find-grow_all k j r [] p m x s g ne h e new = cc
  find-grow_all k zero r (l ∷ ms) p m x s g ne h e new =
      let other : (r == me) ≡ false = differ r me (λ q. ne (omega arith)) in
      let same : l ≡ m = cc in
      ap (λ z. find k z.send_halos) (grow_all_turn me r l ms p other)
      ∙ find-grow_all-Silent k (r + 1) ms (grow_from me l p) s.1 h
      ∙ find-merge_new ◌++◌ k (sent l me p.id.id) p.send_halos x (sent-IsSorted me p.id.id l s.0)
          (subst (λ y. find k (sent y me p.id.id) ≡ some x) (sym same) e) new
    where
      differ : (a b : ℕ) → a ≢ b → (a == b) ≡ false
      differ a b h = ground arith
  find-grow_all k (suc j) r (l ∷ ms) p m x s g ne h e new = elim (Bool-cases (r == me)) [
    | inl eq ↦
        ap (λ z. find k z.send_halos) (grow_all_skip me r l ms p eq)
        ∙ find-grow_all k j (r + 1) ms p m x s.1 g (shift j r ne) h.1 e new
    | inr eq ↦
        ap (λ z. find k z.send_halos) (grow_all_turn me r l ms p eq)
        ∙ find-grow_all k j (r + 1) ms (grow_from me l p) m x s.1 g (shift j r ne) h.1 e
            (find-grow_none k l p s.0 (h.0 (differs r me eq)) ∙ new)
  ]
    where
      shift : (j r : ℕ) → suc j + r ≢ me → j + (r + 1) ≢ me
      shift j r h e = h (omega arith)
