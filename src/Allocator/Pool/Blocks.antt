-- ===== src/Allocator/Pool/Blocks.antt =====
-- include/ghex/allocator/pool_allocator_adaptor.hpp: the blocks in use and those in the pool.
use ghex.Base.{
  ℕ, ◌+◌, ◌≤◌, ◌≡◌, sym, ap, subst, List, [], ◌∷◌, ◌++◌, some, inl, inr, Bool-cases, Option-cases,
  ltb, ◌==◌, if◌then◌else◌, arith,
}
use native.Mathlib.Decide.{ℕ_discrete}
use ghex.Base.OrderedMap.{lookup, upsert, lookup-cons}
use ghex.Allocator.Pool.{Pool, allocate, deallocate}

-- How often a pointer is in a list, and in the pool.
abbrev one : ℕ → ℕ → ℕ
one p q = if p == q then 1 else 0

abbrev pub count : ℕ → List ℕ → ℕ
count p [] = 0
count p (q ∷ qs) = one p q + count p qs

abbrev pub pooled : ℕ → Pool → ℕ
pooled p [] = 0
pooled p ((n, blocks) ∷ pool) = count p blocks + pooled p pool

count-append : (p : ℕ) (xs ys : List ℕ) → count p (xs ++ ys) ≡ count p xs + count p ys
count-append p [] ys = omega arith
count-append p (x ∷ xs) ys = omega (arith, count-append p xs ys)

pooled-deallocate :
    (p q n : ℕ) (pool : Pool) → pooled p (deallocate q n pool) ≡ one p q + pooled p pool
unfolding deallocate upsert
pooled-deallocate p q n [] = omega arith
pooled-deallocate p q n ((m, blocks) ∷ pool) = elim (Bool-cases (ltb n m)) [
  | inl e ↦ rw e (omega arith)
  | inr e ↦ elim (Bool-cases (ltb m n)) [
    | inl f ↦ rw (e, f) (omega (arith, pooled-deallocate p q n pool))
    | inr f ↦ rw (e, f) (omega arith)
  ]
]

pooled-pop :
    (p q n : ℕ) (rest : List ℕ) (pool : Pool)
    → lookup ltb n pool ≡ some (q ∷ rest)
    → one p q + pooled p (upsert ltb n rest (λ blocks. rest) pool) ≡ pooled p pool
unfolding lookup upsert
pooled-pop p q n rest [] h = cc
pooled-pop p q n rest ((m, blocks) ∷ pool) h =
    let (a, place) = lookup-cons ltb n m blocks (q ∷ rest) pool h in
    elim place [
      | inl (b, f) ↦ rw (a, b) (omega (arith, pooled-pop p q n rest pool f))
      | inr (b, f) ↦ rw (a, b) (omega (arith, ap (count p) f))
    ]

-- The pool, and the blocks that are in use.
pub record State : Type 0 where
  pub pool : Pool
  pub live : List ℕ

pub data Step : State → State → Type 0 where
  -- The underlying allocator is asked for a block only where it is not in use.
  allocated :
      (n block : ℕ) {pool : Pool} {live : List ℕ}
      → count block live + pooled block pool ≡ 0
      → Step
          (record { pool = pool; live = live })
          (record { pool = (allocate n block pool).1; live = (allocate n block pool).0 ∷ live })
  -- A block in use is given back.
  deallocated :
      (ptr n : ℕ) (xs ys : List ℕ) {pool : Pool}
      → Step
          (record { pool = pool; live = xs ++ (ptr ∷ ys) })
          (record { pool = deallocate ptr n pool; live = xs ++ ys })

pub data Steps : State → Type 0 where
  start : Steps (record { pool = []; live = [] })
  step : {s t : State} → Steps s → Step s t → Steps t

-- No block is in use twice, and none in use is in the pool.
abbrev pub IsValid : State → Type 0
IsValid s = (p : ℕ) → count p s.live + pooled p s.pool ≤ 1

allocate-keeps :
    (n block : ℕ) (pool : Pool) (live : List ℕ)
    → count block live + pooled block pool ≡ 0
    → IsValid (record { pool = pool; live = live })
    → IsValid (record { pool = (allocate n block pool).1; live = (allocate n block pool).0 ∷ live })
unfolding allocate
allocate-keeps n block pool live fresh v p = elim (Option-cases (lookup ltb n pool)) [
  | inl e ↦ rw (e, allocate) new
  | inr ([], e) ↦ rw (e, allocate) new
  | inr (ptr ∷ rest, e) ↦ rw (e, allocate) (omega (arith, v p, pooled-pop p ptr n rest pool e))
]
  where
    new : one p block + count p live + pooled p pool ≤ 1
    new = elim (ℕ_discrete p block) [
      | yes e ↦
          let none_yet : count p live + pooled p pool ≡ 0 =
            subst (λ k. count k live + pooled k pool ≡ 0) (sym e) fresh in
          ground (arith, none_yet)
      | no ne ↦ ground (arith, ne, v p)
    ]

Step-IsValid : {s t : State} → Step s t → IsValid s → IsValid t
Step-IsValid (allocated n block {pool = pool} {live = live} fresh) v p =
    allocate-keeps n block pool live fresh v p
Step-IsValid (deallocated ptr n xs ys {pool = pool}) v p =
    let before = v p in
    let whole = count-append p xs (ptr ∷ ys) in
    let rest = count-append p xs ys in
    omega (arith, before, whole, rest, pooled-deallocate p ptr n pool)

-- Over all sequences of allocations and of blocks in use given back, with an underlying allocator
-- that only returns blocks that are neither in use nor in the pool: no pointer is in use twice, and
-- none that is in use is in the pool, or in it twice.
pub Steps-pooled : (s : State) → Steps s → (p : ℕ) → count p s.live + pooled p s.pool ≤ 1
Steps-pooled s start p = omega arith
Steps-pooled t (step {s = s} h e) p = Step-IsValid e (Steps-pooled s h) p
