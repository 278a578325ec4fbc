-- ===== src/Base/NatMap.antt =====
-- `std::map` with numbers for keys, and `insert`, which leaves an entry that is there.
use Prim.Native.Nat.{ℕ}
use mathlib.Core.Path.{◌≡◌, sym, ap, ◌∙◌, subst}
use mathlib.Core.Logic.{◌≢◌}
use mathlib.Core.Bool.{}
use mathlib.Core.Option.{none, some, some-injective}
use mathlib.Core.List.{List}
use native.Mathlib.Omega.{arith}
use native.Mathlib.Decide.{ℕ_discrete}
use ghex.Base.Tests.{ltb}
use ghex.Base.OrderedMap.{
  WeakOrder, StrictOrder-WeakOrder, StrictOrder, lookup, upsert, entry, lookup-upsert_self,
  lookup-upsert_ne,
}

pub ltb-StrictOrder : StrictOrder ltb
ltb-StrictOrder = record {
  irreflexive = λ a. ground arith;
  transitive = λ a b c h k. ground arith;
  total = λ a b h k. ground arith;
}

pub ltb-WeakOrder : WeakOrder ltb
ltb-WeakOrder = StrictOrder-WeakOrder ltb ltb-StrictOrder

abbrev pub insert : ℕ → ℕ → List (ℕ × ℕ) → List (ℕ × ℕ)
insert p top m = upsert ltb p top (λ t. t) m

insert_self :
    (p top : ℕ) (m : List (ℕ × ℕ))
    → lookup ltb p (insert p top m) ≡ entry ltb top (λ t. t) (lookup ltb p m)
insert_self p top m = lookup-upsert_self ltb ltb-StrictOrder p top (λ t. t) m

pub insert-ne :
    (p q top : ℕ) (m : List (ℕ × ℕ)) → q ≢ p → lookup ltb q (insert p top m) ≡ lookup ltb q m
insert-ne p q top m h = lookup-upsert_ne ltb ltb-StrictOrder p q top (λ t. t) m h

-- An entry that is there stays, and nothing else changes.
pub insert-old :
    (p t top : ℕ) (m : List (ℕ × ℕ))
    → lookup ltb p m ≡ some t
    → (q : ℕ) → lookup ltb q (insert p top m) ≡ lookup ltb q m
insert-old p t top m h q = elim (ℕ_discrete q p) [
  | yes e ↦
      subst (λ k. lookup ltb k (insert p top m) ≡ lookup ltb k m) (sym e)
        (insert_self p top m ∙ ap (entry ltb top (λ t. t)) h ∙ sym h)
  | no n ↦ insert-ne p q top m n
]

pub insert-new :
    (p top : ℕ) (m : List (ℕ × ℕ))
    → lookup ltb p m ≡ none
    → lookup ltb p (insert p top m) ≡ some top
insert-new p top m h = insert_self p top m ∙ ap (entry ltb top (λ t. t)) h

pub insert-top :
    (p top : ℕ) (m : List (ℕ × ℕ))
    → lookup ltb p m ≡ none
    → (q o : ℕ) → q ≡ p
    → lookup ltb q (insert p top m) ≡ some o
    → top ≡ o
insert-top p top m h q o e f =
    some-injective top o
      (sym (insert-new p top m h) ∙ subst (λ k. lookup ltb k (insert p top m) ≡ some o) e f)
